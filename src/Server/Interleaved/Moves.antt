-- ===== src/Server/Interleaved/Moves.antt =====
-- What waits in src/server.rs while handlers run side by side, and the choice of a session.
use easynet.Prelude.{
  ℕ, ◌+◌, ◌≤◌, ◌<◌, ◌≡◌, ◌≢◌, refl, sym, ◌∙◌, Option, none, some, List, [], ◌∷◌, arith, All,
  All-imp, Picks, here, there, picked-All, Bool-cases, inl, inr,
}
use easynet.Text.{Text, text_eq, text_eq_iff}
use easynet.Assoc.{get}
use easynet.Net.{SocketAddr}
use easynet.Server.{
  Client, ServerState, ServerConfig, Surroundings, text_key, client_address, choose_session,
  new_session, known_or_new,
}
use easynet.Server.Addresses.{address_inj, All-found, DiffersBut, IsSound, given_later}
use easynet.Server.Reachable.{choose_session-IsSafeChoice}
use easynet.Server.Interleaved.{Underway, Handlers, choose}

-- What waits has an address that was given out, and that stands, if anywhere, under its own id.
pub record MayStore (s : ServerState) (u : Underway) : Type 0 where
  pub given :
      (i : ℕ) × (2 ≤ i) × (i < s.next_client_id) × ((u.choice).virtual_ip ≡ client_address i)
  pub apart : All (DiffersBut (u.choice).session_id (u.choice).virtual_ip) s.sessions

-- Two that wait with one address have one id.
abbrev pub Agree : Underway → Underway → Type 0
Agree u v =
    (u.choice).virtual_ip ≡ (v.choice).virtual_ip → (u.choice).session_id ≡ (v.choice).session_id

abbrev pub AllAgree : List Underway → Type 0
AllAgree [] = Unit
AllAgree (u ∷ l) = All (Agree u) l × AllAgree l

pub record IsSoundTogether (h : Handlers) : Type 0 where
  pub sound : IsSound h.state
  pub safe : All (MayStore h.state) h.waiting
  pub agree : AllAgree h.waiting

module _ {u : Underway} where
  pub picked-AllAgree :
      {l r : List Underway} → Picks u l r → AllAgree l → All (Agree u) r × AllAgree r
  picked-AllAgree (here l) h = h
  picked-AllAgree (there y l r k) (p, h) =
      let (q, t) = picked-All (Agree y) k p in
      let (a, b) = picked-AllAgree k h in (((λ e. sym (q (sym e))), a), (t, b))

-- A new address is not that of one who waits.
new_apart :
    (w : Surroundings) (config : ServerConfig) (s : ServerState) (u : Underway)
    → s.next_client_id < 256
    → MayStore s u
    → (new_session w config s).virtual_ip ≢ (u.choice).virtual_ip
unfolding new_session
new_apart w config s u room may e =
    let (i, two, below, same) = may.given in
    let clash : s.next_client_id ≡ i =
      address_inj s.next_client_id i room (omega arith) (e ∙ same) in
    omega arith

-- A choice is one that may wait along with those that do.
choice_agrees :
    (w : Surroundings) (config : ServerConfig) (s : ServerState) (id : Option Text) (u : Underway)
    → IsSound s
    → s.next_client_id < 256
    → MayStore s u
    → let c = choose_session w config s id in
      c.virtual_ip ≡ (u.choice).virtual_ip → c.session_id ≡ (u.choice).session_id
unfolding choose_session new_session
choice_agrees w config s none u v room may same = absurd (new_apart w config s u room may same)
choice_agrees w config s (some id) u v room may same = go (get id s.sessions) refl same
  where
    go :
        (known : Option Client)
        → get id s.sessions ≡ known
        → (known_or_new w config s id known).virtual_ip ≡ (u.choice).virtual_ip
        → (known_or_new w config s id known).session_id ≡ (u.choice).session_id
    go none found e = absurd (new_apart w config s u room may e)
    go (some client) found e = elim (Bool-cases (text_eq id (u.choice).session_id)) [
      | inl yes_same ↦ (text_eq_iff _ _).0 yes_same
      | inr other ↦
          let ne : id ≢ (u.choice).session_id =
            λ k. cc (other, (text_eq_iff id (u.choice).session_id).1 k) in
          absurd (
            All-found (DiffersBut (u.choice).session_id (u.choice).virtual_ip) id client s.sessions
              may.apart found ne e)
    ]

-- A sound state of which the counter moves by one at most.
abbrev pub StepsTogether : Handlers → Handlers → Type 0
StepsTogether g h = IsSoundTogether h × ((h.state).next_client_id ≤ (g.state).next_client_id + 1)

pub choose-IsSoundTogether :
    (h : Handlers) (w : Surroundings) (config : ServerConfig) (src : SocketAddr) (tx : ℕ)
    (id : Option Text)
    → IsSoundTogether h
    → (h.state).next_client_id < 256
    → StepsTogether h (choose h w config src tx id)
unfolding choose
choose-IsSoundTogether h w config src tx id v room =
    let s = h.state in
    let c = choose_session w config s id in
    let safe = choose_session-IsSafeChoice w config s id v.sound room in
    (
      record {
        sound = record {
          low = omega (arith, (v.sound).low, safe.counter);
          high = omega (arith, safe.step);
          given = rw safe.same_sessions (given_later _ _ s.sessions safe.counter (v.sound).given);
          distinct = rw safe.same_sessions (v.sound).distinct;
        };
        safe = (
          record { given = safe.given; apart = rw safe.same_sessions safe.apart },
          All-imp h.waiting (λ u may. moved u may safe.counter safe.same_sessions) v.safe,
        );
        agree = (
          All-imp h.waiting (λ u may. choice_agrees w config s id u v.sound room may) v.safe,
          v.agree,
        );
      },
      safe.step,
    )
  where
    moved :
        {s t : ServerState} (u : Underway)
        → MayStore s u
        → s.next_client_id ≤ t.next_client_id
        → t.sessions ≡ s.sessions
        → MayStore t u
    moved u may later same =
        let (i, two, below, e) = may.given in
        record { given = (i, two, omega arith, e); apart = rw same may.apart }
