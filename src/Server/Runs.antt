-- ===== src/Server/Runs.antt =====
-- The steps of the server of src/server.rs, and the virtual addresses in the states they lead to.
use easynet.Prelude.{
  ℕ, ◌+◌, ◌≤◌, ◌<◌, ◌≡◌, ap, ◌∙◌, Bool, Option, none, some, [], ◌∷◌, arith, All, Bool-cases,
  Option-cases, inl, inr, find, retain,
}
use easynet.Text.{Text}
use easynet.Net.{SocketAddr, socket_eq}
use easynet.Server.{
  Client, ServerState, ServerConfig, Surroundings, text_key, client_address, new_session,
  choose_session, admits, handshake_with, handle_handshake, handle_disconnect, initial,
}
use easynet.Server.Lifetime.{should_keep, cleanup_expired_sessions}
use easynet.Server.Addresses.{
  Sessions, Apart, DistinctAddresses, GivenOut, IsSound, remove-All, remove-DistinctAddresses,
}
use easynet.Server.Reachable.{StepsSoundly, answer-IsSound, choose_session-IsSafeChoice}

-- What changes the sessions: a handshake, a disconnect, a round of the cleanup.
pub data Step : ServerState → ServerState → Type 0 where
  handshakes :
      (w : Surroundings) (s : ServerState) (src : SocketAddr) (tx : ℕ) (id token : Option Text)
      → Step s (handle_handshake w s src tx id token).state
  disconnects : (s : ServerState) (addr : SocketAddr) → Step s (handle_disconnect s addr)
  cleans_up : (s : ServerState) (now : ℕ) → Step s (cleanup_expired_sessions s now)

-- The states that a number of steps lead to from the start.
pub data Reachable : ℕ → ServerState → Type 0 where
  starts : Reachable 0 initial
  goes_on : (n : ℕ) (s t : ServerState) → Reachable n s → Step s t → Reachable (n + 1) t

module _ (p : Text × Client → Bool) where
  pub retain-All : (P : Text × Client → Type 0) (m : Sessions) → All P m → All P (retain p m)
  retain-All P [] h = tt
  retain-All P (e ∷ m) h = elim (Bool-cases (p e)) [
    | inl kept ↦ rw kept (h.0, retain-All P m h.1)
    | inr gone ↦ rw gone (retain-All P m h.1)
  ]

  pub retain-DistinctAddresses :
      (m : Sessions) → DistinctAddresses m → DistinctAddresses (retain p m)
  retain-DistinctAddresses [] h = tt
  retain-DistinctAddresses ((j, c) ∷ m) h = elim (Bool-cases (p (j, c))) [
    | inl kept ↦ rw kept (retain-All (Apart j c.virtual_ip) m h.0, retain-DistinctAddresses m h.1)
    | inr gone ↦ rw gone (retain-DistinctAddresses m h.1)
  ]

stays : (s : ServerState) → IsSound s → StepsSoundly s s
stays s v = (v, omega arith)

handshake_with-IsSound :
    (w : Surroundings) (config : Option ServerConfig) (s : ServerState) (src : SocketAddr) (tx : ℕ)
    (id token : Option Text)
    → IsSound s
    → s.next_client_id < 256
    → StepsSoundly s (handshake_with w config s src tx id token).state
handshake_with-IsSound w none s src tx id token v room = stays s v
handshake_with-IsSound w (some config) s src tx id token v room =
    elim (Bool-cases (admits config token)) [
      | inl good ↦ rw good (
          answer-IsSound w config s src tx (choose_session w config s id) v room
            (choose_session-IsSafeChoice w config s id v room))
      | inr bad ↦ rw bad (stays s v)
    ]

handle_handshake-IsSound :
    (w : Surroundings) (s : ServerState) (src : SocketAddr) (tx : ℕ) (id token : Option Text)
    → IsSound s
    → s.next_client_id < 256
    → StepsSoundly s (handle_handshake w s src tx id token).state
unfolding handle_handshake
handle_handshake-IsSound w s src tx id token = handshake_with-IsSound w w.config s src tx id token

pub handle_disconnect-IsSound :
    (s : ServerState) (addr : SocketAddr) → IsSound s → StepsSoundly s (handle_disconnect s addr)
unfolding handle_disconnect
handle_disconnect-IsSound s addr v =
    elim (Option-cases (find (λ (e : Text × Client). socket_eq (e.1).addr addr) s.sessions)) [
      | inl missing ↦ rw (missing, handle_disconnect) (stays s v)
      | inr ((id, client), found) ↦
          rw (found, handle_disconnect)
            (
              record {
                low = v.low;
                high = v.high;
                given = remove-All (GivenOut s.next_client_id) id s.sessions v.given;
                distinct = remove-DistinctAddresses id s.sessions v.distinct;
              },
              omega arith,
            )
    ]

pub cleanup-IsSound :
    (s : ServerState) (now : ℕ) → IsSound s → StepsSoundly s (cleanup_expired_sessions s now)
unfolding cleanup_expired_sessions
cleanup-IsSound s now v =
    let keep = λ (e : Text × Client). should_keep now e.1 in
    (
      record {
        low = v.low;
        high = v.high;
        given = retain-All keep (GivenOut s.next_client_id) s.sessions v.given;
        distinct = retain-DistinctAddresses keep s.sessions v.distinct;
      },
      omega arith,
    )

Step-IsSound :
    (s t : ServerState) → IsSound s → s.next_client_id < 256 → Step s t → StepsSoundly s t
Step-IsSound _ _ v room (handshakes w s src tx id token) =
    handle_handshake-IsSound w s src tx id token v room
Step-IsSound _ _ v room (disconnects s addr) = handle_disconnect-IsSound s addr v
Step-IsSound _ _ v room (cleans_up s now) = cleanup-IsSound s now v

pub initial-IsSound : IsSound initial
initial-IsSound = record { low = omega arith; high = omega arith; given = tt; distinct = tt }

Reachable-IsSound :
    (n : ℕ) (s : ServerState) → Reachable n s → n ≤ 254 → IsSound s × (s.next_client_id ≤ n + 2)
Reachable-IsSound _ _ starts h = (initial-IsSound, omega arith)
Reachable-IsSound _ _ (goes_on n s t before step) h =
    let (v, counter) = Reachable-IsSound n s before (omega arith) in
    let (v', later) = Step-IsSound s t v (omega arith) step in (v', omega arith)

-- In every state that at most 254 handshakes, disconnects and rounds of the cleanup lead to, no two
-- sessions have the same id or the same virtual address, and every session's address is 10.0.0.i for
-- an i of at least 2 below the counter, which is at most 256.
pub Reachable-DistinctAddresses :
    (n : ℕ) (s : ServerState)
    → Reachable n s
    → n ≤ 254
    → DistinctAddresses s.sessions
      × All (GivenOut s.next_client_id) s.sessions
      × (s.next_client_id ≤ 256)
Reachable-DistinctAddresses n s r h =
    let (v, counter) = Reachable-IsSound n s r h in (v.distinct, v.given, v.high)

pub client_address_wraps : (n : ℕ) → client_address (n + 256) ≡ client_address n
client_address_wraps n = ground arith

-- The address of a new session depends on the last eight bits of the counter: in a state whose
-- counter is 256 further, a new session gets the address again.
pub new_session_wraps :
    (w : Surroundings) (config : ServerConfig) (s t : ServerState)
    → t.next_client_id ≡ s.next_client_id + 256
    → (new_session w config t).virtual_ip ≡ (new_session w config s).virtual_ip
unfolding new_session
new_session_wraps w config s t h =
    ap (λ n. client_address n) h ∙ client_address_wraps s.next_client_id
