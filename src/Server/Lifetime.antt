-- ===== src/Server/Lifetime.antt =====
-- The removal of old sessions in `cleanup_expired_sessions` of src/server.rs, and what keeps a
-- session alive.
use easynet.Prelude.{
  ℕ, ◌+◌, ◌-◌, ◌*◌, ◌≤◌, ◌<◌, ◌≡◌, refl, ap, sym, ◌∙◌, ◌↔◌, Bool, true, false, Option, none, some,
  List, [], ◌∷◌, arith, ltb, leb, if◌then◌else◌, retain, Any, inl, inr, Bool-cases, is_empty,
}
use easynet.Text.{Text}
use easynet.Net.{SocketAddr}
use easynet.Message.{Bytes, Message, MessageType, handshake, payload, keepalive, disconnect}
use easynet.Server.{Client, ServerState, Surroundings, handle_handshake, handle_disconnect}
use easynet.Server.Packets.{handle_data, handle_keepalive}

-- An hour, in milliseconds.
abbrev pub session_timeout : ℕ
session_timeout = 3600 * 1000

-- `elapsed < 3600 s`; a contact in the future counts as the longest time.
unfoldable pub should_keep : ℕ → Client → Bool
should_keep now client =
    if leb client.last_seen now then ltb (now - client.last_seen) session_timeout else false

-- One round of the loop of `cleanup_expired_sessions`.
unfoldable pub cleanup_expired_sessions : ServerState → ℕ → ServerState
unfolding should_keep
cleanup_expired_sessions s now = record s {
  sessions = retain (λ (e : Text × Client). should_keep now e.1) s.sessions;
}

-- What a connection hands on when a message arrives.
pub record Handled : Type 0 where
  pub state : ServerState
  pub sent : List (SocketAddr × Message)
  pub forwarded : List Bytes

-- An empty text of a handshake counts as none.
abbrev pub provided : Text → Option Text
provided t = if is_empty t then none else some t

-- The match on a message in `handle_tcp_connection` of src/transport/tcp.rs and in
-- `transport_io_task` of src/transport/udp.rs.
-- `src` is the sender, `peer` the address that a handshake is registered under.
unfoldable pub handle_message :
    Surroundings → ServerState → SocketAddr → SocketAddr → ℕ → Option MessageType → Handled
handle_message w s src peer tx (some (handshake h)) =
    let out = handle_handshake w s peer tx (provided h.session_id) (provided h.token) in
    record { state = out.state; sent = out.sent; forwarded = [] }
handle_message w s src peer tx (some (payload bytes)) = record {
  state = s;
  sent = [];
  forwarded = handle_data w.forward_ok bytes;
}
handle_message w s src peer tx (some (keepalive timestamp)) = record {
  state = s;
  sent = handle_keepalive src timestamp;
  forwarded = [];
}
handle_message w s src peer tx (some (disconnect reason)) = record {
  state = handle_disconnect s src;
  sent = [];
  forwarded = [];
}
handle_message w s src peer tx none = record { state = s; sent = []; forwarded = [] }

-- Messages one after the other, each with what it is given from outside.
unfoldable pub after_messages :
    ServerState
    → SocketAddr
    → SocketAddr
    → ℕ
    → List (Surroundings × Option MessageType)
    → ServerState
unfolding handle_message
after_messages s src peer tx [] = s
after_messages s src peer tx ((w, m) ∷ ms) =
    after_messages (handle_message w s src peer tx m).state src peer tx ms

-- Data and keepalives.
abbrev pub IsTraffic : Option MessageType → Type 0
IsTraffic (some (payload bytes)) = Unit
IsTraffic (some (keepalive timestamp)) = Unit
IsTraffic _ = ⊥

abbrev pub AllTraffic : List (Surroundings × Option MessageType) → Type 0
AllTraffic [] = Unit
AllTraffic ((w, m) ∷ ms) = IsTraffic m × AllTraffic ms

traffic_keeps :
    (w : Surroundings) (s : ServerState) (src peer : SocketAddr) (tx : ℕ) (m : Option MessageType)
    → IsTraffic m
    → (handle_message w s src peer tx m).state ≡ s
unfolding handle_message
traffic_keeps w s src peer tx none h = elim h [ ]
traffic_keeps w s src peer tx (some (handshake x)) h = elim h [ ]
traffic_keeps w s src peer tx (some (payload bytes)) h = refl
traffic_keeps w s src peer tx (some (keepalive t)) h = refl
traffic_keeps w s src peer tx (some (disconnect reason)) h = elim h [ ]

traffic_changes_nothing :
    (s : ServerState) (src peer : SocketAddr) (tx : ℕ)
    (ms : List (Surroundings × Option MessageType))
    → AllTraffic ms
    → after_messages s src peer tx ms ≡ s
unfolding after_messages
traffic_changes_nothing s src peer tx [] h = refl
traffic_changes_nothing s src peer tx ((w, m) ∷ ms) h =
    rw (traffic_keeps w s src peer tx m h.0) (traffic_changes_nothing s src peer tx ms h.1)

-- An entry of the table.
abbrev pub Holds : Text → Client → List (Text × Client) → Type 0
Holds id client m = Any (λ e. e ≡ (id, client)) m

module _ (p : Text × Client → Bool) (e : Text × Client) where
  retain_sound :
      (m : List (Text × Client)) → Any (λ f. f ≡ e) (retain p m) → (p e ≡ true) × Any (λ f. f ≡ e) m
  retain_sound [] h = elim h [ ]
  retain_sound (f ∷ m) h = elim (Bool-cases (p f)) [
    | inl kept ↦ elim (rw kept at h) [
      | inl same ↦ (ap p (sym same) ∙ kept, inl same)
      | inr later ↦ let (good, found) = retain_sound m later in (good, inr found)
    ]
    | inr gone ↦ let (good, found) = retain_sound m (rw gone at h) in (good, inr found)
  ]

  retain_complete :
      (m : List (Text × Client)) → p e ≡ true → Any (λ f. f ≡ e) m → Any (λ f. f ≡ e) (retain p m)
  retain_complete [] good h = elim h [ ]
  retain_complete (f ∷ m) good (inl same) = rw (ap p same ∙ good) (inl same)
  retain_complete (f ∷ m) good (inr later) = elim (Bool-cases (p f)) [
    | inl kept ↦ rw kept (inr (retain_complete m good later))
    | inr gone ↦ rw gone (retain_complete m good later)
  ]

should_keep_iff :
    (now : ℕ) (client : Client)
    → (should_keep now client ≡ true)
      ↔ ((client.last_seen ≤ now) × (now < client.last_seen + session_timeout))
unfolding should_keep
should_keep_iff now client = ground arith

-- A round of the cleanup keeps exactly the sessions whose last contact is not in the future and less
-- than an hour ago.
pub cleanup_iff :
    (s : ServerState) (now : ℕ) (id : Text) (client : Client)
    → Holds id client (cleanup_expired_sessions s now).sessions ↔ (
        (client.last_seen ≤ now)
        × (now < client.last_seen + session_timeout)
        × Holds id client s.sessions)
unfolding cleanup_expired_sessions
cleanup_iff s now id client =
    let keep = λ (e : Text × Client). should_keep now e.1 in
    (
      λ h.
          let (good, found) = retain_sound keep (id, client) s.sessions h in
          let (past, recent) = (should_keep_iff now client).0 good in (past, recent, found),
      λ (past, recent, found).
          retain_complete keep (id, client) s.sessions
            ((should_keep_iff now client).1 (past, recent)) found,
    )

-- Data and keepalives do not keep a session: where every session held under an id was last heard of an
-- hour or more ago, by its stored contact, and whatever data and keepalives come then, a round of
-- the cleanup leaves no session under the id, be it with the stored contact or another one.
pub traffic_does_not_keep :
    (s : ServerState) (src peer : SocketAddr) (tx : ℕ)
    (ms : List (Surroundings × Option MessageType)) (now : ℕ) (id : Text)
    → AllTraffic ms
    → ((client : Client) → Holds id client s.sessions → client.last_seen + session_timeout ≤ now)
    → (client : Client)
    → ¬ Holds id client (cleanup_expired_sessions (after_messages s src peer tx ms) now).sessions
traffic_does_not_keep s src peer tx ms now id traffic late client h =
    let (past, recent, found) =
      (cleanup_iff s now id client).0
        (rw (traffic_changes_nothing s src peer tx ms traffic) at h) in
    let old = late client found in omega arith
