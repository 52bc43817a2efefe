-- ===== src/Server/Reachable.antt =====
-- A handshake of src/server.rs keeps the table sound while there are addresses left.
use easynet.Prelude.{
  ℕ, ◌+◌, ◌≤◌, ◌<◌, ◌≡◌, refl, Option, none, some, arith, All, Bool-cases, Option-cases, inl, inr,
}
use easynet.Text.{Text}
use easynet.Assoc.{get}
use easynet.Net.{SocketAddr}
use easynet.Server.{
  Client, ServerState, ServerConfig, Surroundings, Choice, text_key, client_address, new_session,
  known_or_new, choose_session, answer,
}
use easynet.Server.Handshake.{stored}
use easynet.Server.Addresses.{
  GivenOut, IsSound, DiffersBut, insert-All, insert-DistinctAddresses, All-get, get-DiffersBut,
  given_later, next_differs,
}

-- A choice that may be stored: its counter has not passed 256, and its address was given out and
-- stands, if anywhere, under the chosen id.
pub record IsSafeChoice (s : ServerState) (c : Choice) : Type 0 where
  pub counter : s.next_client_id ≤ (c.state).next_client_id
  pub step : (c.state).next_client_id ≤ s.next_client_id + 1
  pub same_sessions : (c.state).sessions ≡ s.sessions
  pub given : (i : ℕ) × (2 ≤ i) × (i < (c.state).next_client_id) × (c.virtual_ip ≡ client_address i)
  pub apart : All (DiffersBut c.session_id c.virtual_ip) s.sessions

new_session-IsSafeChoice :
    (w : Surroundings) (config : ServerConfig) (s : ServerState)
    → IsSound s
    → s.next_client_id < 256
    → IsSafeChoice s (new_session w config s)
unfolding new_session
new_session-IsSafeChoice w config s v room = record {
  counter = omega arith;
  step = omega arith;
  same_sessions = refl;
  given = (s.next_client_id, v.low, omega arith, refl);
  apart = next_differs s.next_client_id w.fresh_id s.sessions room v.given;
}

known-IsSafeChoice :
    (w : Surroundings) (config : ServerConfig) (s : ServerState) (id : Text) (client : Client)
    → IsSound s
    → get id s.sessions ≡ some client
    → IsSafeChoice s (known_or_new w config s id (some client))
known-IsSafeChoice w config s id client v found = record {
  counter = omega arith;
  step = omega arith;
  same_sessions = refl;
  given =
      All-get
        (λ (c : Client).
          (i : ℕ) × (2 ≤ i) × (i < s.next_client_id) × (c.virtual_ip ≡ client_address i))
        id client s.sessions v.given found;
  apart = get-DiffersBut id client s.sessions v.distinct found;
}

pub choose_session-IsSafeChoice :
    (w : Surroundings) (config : ServerConfig) (s : ServerState) (id : Option Text)
    → IsSound s
    → s.next_client_id < 256
    → IsSafeChoice s (choose_session w config s id)
unfolding choose_session
choose_session-IsSafeChoice w config s none v room = new_session-IsSafeChoice w config s v room
choose_session-IsSafeChoice w config s (some id) v room = elim (Option-cases (get id s.sessions)) [
  | inl unknown ↦ rw unknown (new_session-IsSafeChoice w config s v room)
  | inr (client, found) ↦ rw found (known-IsSafeChoice w config s id client v found)
]

-- A sound state stays sound over a step that moves the counter by one at most.
abbrev pub StepsSoundly : ServerState → ServerState → Type 0
StepsSoundly s t = IsSound t × (t.next_client_id ≤ s.next_client_id + 1)

pub answer-IsSound :
    (w : Surroundings) (config : ServerConfig) (s : ServerState) (src : SocketAddr) (tx : ℕ)
    (c : Choice)
    → IsSound s
    → s.next_client_id < 256
    → IsSafeChoice s c
    → StepsSoundly s (answer w config src tx c).state
unfolding answer
answer-IsSound w config s src tx c v room safe = elim (Bool-cases w.send_ok) [
  | inl sent ↦ rw sent (
    record {
      low = omega (arith, v.low, safe.counter);
      high = omega (arith, safe.step);
      given = rw safe.same_sessions (
          insert-All (GivenOut (c.state).next_client_id) c.session_id (stored w src tx c) s.sessions
            (given_later _ _ s.sessions safe.counter v.given) safe.given);
      distinct = rw safe.same_sessions (
          insert-DistinctAddresses c.session_id (stored w src tx c) s.sessions v.distinct
            safe.apart);
    },
    safe.step,
  )
  | inr lost ↦ rw lost (
    record {
      low = omega (arith, v.low, safe.counter);
      high = omega (arith, safe.step);
      given = rw safe.same_sessions (given_later _ _ s.sessions safe.counter v.given);
      distinct = rw safe.same_sessions v.distinct;
    },
    safe.step,
  )
]
