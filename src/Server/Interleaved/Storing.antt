-- ===== src/Server/Interleaved/Storing.antt =====
-- A session that is stored behind its send, and sessions that go, in src/server.rs.
use easynet.Prelude.{
  ◌+◌, ◌≤◌, ◌≡◌, refl, List, [], ◌∷◌, arith, All, All-imp, Picks, picked-All, Option-cases, inl,
  inr, find,
}
use easynet.Text.{Text}
use easynet.Net.{SocketAddr, socket_eq}
use easynet.Server.{Client, ServerState, text_key, handle_disconnect}
use easynet.Server.Handshake.{stored}
use easynet.Server.Addresses.{
  GivenOut, DiffersBut, IsSound, insert-All, insert-DistinctAddresses, remove-All,
  remove-DistinctAddresses,
}
use easynet.Server.Interleaved.{Underway, Handlers, store, drop_session}
use easynet.Server.Interleaved.Moves.{
  MayStore, Agree, IsSoundTogether, StepsTogether, picked-AllAgree,
}

pub store-IsSoundTogether :
    (s : ServerState) (u : Underway) (l r : List Underway)
    → Picks u l r
    → IsSoundTogether (record { state = s; waiting = l })
    → StepsTogether (record { state = s; waiting = l }) (record { state = store u s; waiting = r })
unfolding store
store-IsSoundTogether s u l r k v =
    let (may, safe) = picked-All (MayStore s) k v.safe in
    let (agrees, agree) = picked-AllAgree k v.agree in
    let client = stored u.around u.peer u.tx u.choice in
    (
      record {
        sound = record {
          low = (v.sound).low;
          high = (v.sound).high;
          given =
              insert-All (GivenOut s.next_client_id) (u.choice).session_id client s.sessions
                (v.sound).given may.given;
          distinct =
              insert-DistinctAddresses (u.choice).session_id client s.sessions (v.sound).distinct
                may.apart;
        };
        safe = beside r safe agrees;
        agree = agree;
      },
      omega arith,
    )
  where
    beside :
        (m : List Underway) → All (MayStore s) m → All (Agree u) m → All (MayStore (store u s)) m
    beside [] p q = tt
    beside (v ∷ m) (may, p) (agrees, q) = (
      record {
        given = may.given;
        apart =
            insert-All (DiffersBut (v.choice).session_id (v.choice).virtual_ip)
              (u.choice).session_id (stored u.around u.peer u.tx u.choice) s.sessions may.apart
              (λ ne e. ne (agrees e));
      },
      beside m p q,
    )

-- Sessions that go leave the rest as sound as it was.
pub shrunk-IsSoundTogether :
    (h : Handlers) (t : ServerState)
    → IsSoundTogether h
    → IsSound t × (t.next_client_id ≤ (h.state).next_client_id + 1)
    → (h.state).next_client_id ≤ t.next_client_id
    → ((P : Text × Client → Type 0) → All P (h.state).sessions → All P t.sessions)
    → StepsTogether h (record h { state = t })
shrunk-IsSoundTogether h t v sound same fewer = (
  record {
    sound = sound.0;
    safe =
        All-imp h.waiting
          (λ u may.
            let (i, two, below, e) = may.given in
            record {
              given = (i, two, omega arith, e);
              apart = fewer (DiffersBut (u.choice).session_id (u.choice).virtual_ip) may.apart;
            })
          v.safe;
    agree = v.agree;
  },
  sound.1,
)

pub handle_disconnect-All :
    (s : ServerState) (addr : SocketAddr)
    → ((handle_disconnect s addr).next_client_id ≡ s.next_client_id)
      × ((P : Text × Client → Type 0)
          → All P s.sessions
          → All P (handle_disconnect s addr).sessions)
unfolding handle_disconnect
handle_disconnect-All s addr =
    elim (Option-cases (find (λ (e : Text × Client). socket_eq (e.1).addr addr) s.sessions)) [
      | inl missing ↦ rw (missing, handle_disconnect) (refl, λ P h. h)
      | inr ((id, client), found) ↦
          rw (found, handle_disconnect) (refl, λ P h. remove-All P id s.sessions h)
    ]

pub drop_session-IsSound :
    (id : Text) (s : ServerState)
    → IsSound s
    → IsSound (drop_session id s) × ((drop_session id s).next_client_id ≤ s.next_client_id + 1)
unfolding drop_session
drop_session-IsSound id s v = (
  record {
    low = v.low;
    high = v.high;
    given = remove-All (GivenOut s.next_client_id) id s.sessions v.given;
    distinct = remove-DistinctAddresses id s.sessions v.distinct;
  },
  omega arith,
)
