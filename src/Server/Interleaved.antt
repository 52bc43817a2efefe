-- ===== src/Server/Interleaved.antt =====
-- The handlers of src/server.rs side by side: `handle_handshake` chooses a session, waits for its
-- send with no lock held, and then stores the session; in between, other handlers run.
pub mod Moves
pub mod Storing
pub mod Sound
use easynet.Prelude.{ℕ, ◌+◌, ◌≡◌, true, Option, List, [], ◌∷◌, Picks}
use easynet.Text.{Text}
use easynet.Assoc.{insert, remove}
use easynet.Net.{SocketAddr, socket_eq}
use easynet.Server.{
  Client, ServerState, ServerConfig, Surroundings, Choice, text_key, choose_session, admits,
  handle_disconnect, initial,
}
use easynet.Server.Lifetime.{Holds, cleanup_expired_sessions}
use easynet.Server.Handshake.{stored}

-- A handshake that waits for its send.
pub record Underway : Type 0 where
  pub choice : Choice
  pub around : Surroundings
  pub peer : SocketAddr
  pub tx : ℕ

pub record Handlers : Type 0 where
  pub state : ServerState
  pub waiting : List Underway

-- The first part of a handshake: the choice of the session, under the lock.
unfoldable pub choose :
    Handlers → Surroundings → ServerConfig → SocketAddr → ℕ → Option Text → Handlers
unfolding choose_session
choose h w config src tx id =
    let c = choose_session w config h.state id in
    record {
      state = c.state;
      waiting = record { choice = c; around = w; peer = src; tx = tx } ∷ h.waiting;
    }

-- The second part, behind a send that went well.
unfoldable pub store : Underway → ServerState → ServerState
store u s = record s {
  sessions = insert (u.choice).session_id (stored u.around u.peer u.tx u.choice) s.sessions;
}

-- A disconnect that found the session under the id at its address.
unfoldable pub drop_session : Text → ServerState → ServerState
drop_session id s = record s { sessions = remove id s.sessions }

-- A handshake is admitted and chooses, stores behind its send, or ends with a send that failed; a
-- peer disconnects, which drops the first session at its address in the order in which the table is
-- walked, here the table's own or any other; or the cleanup runs.
pub data Step : Handlers → Handlers → Type 0 where
  chooses :
      (h : Handlers) (w : Surroundings) (config : ServerConfig) (src : SocketAddr) (tx : ℕ)
      (id token : Option Text)
      → admits config token ≡ true
      → Step h (choose h w config src tx id)
  stores :
      (s : ServerState) (u : Underway) (l r : List Underway)
      → Picks u l r
      → Step (record { state = s; waiting = l }) (record { state = store u s; waiting = r })
  send_fails :
      (s : ServerState) (u : Underway) (l r : List Underway)
      → Picks u l r
      → Step (record { state = s; waiting = l }) (record { state = s; waiting = r })
  disconnects :
      (h : Handlers) (addr : SocketAddr)
      → Step h (record h { state = handle_disconnect h.state addr })
  disconnects_any :
      (h : Handlers) (addr : SocketAddr) (id : Text) (client : Client)
      → Holds id client (h.state).sessions
      → socket_eq client.addr addr ≡ true
      → Step h (record h { state = drop_session id h.state })
  cleans_up :
      (h : Handlers) (now : ℕ) → Step h (record h { state = cleanup_expired_sessions h.state now })

-- What a number of steps lead to from the start.
pub data Reachable : ℕ → Handlers → Type 0 where
  starts : Reachable 0 (record { state = initial; waiting = [] })
  goes_on : (n : ℕ) (g h : Handlers) → Reachable n g → Step g h → Reachable (n + 1) h
