-- ===== src/Server/Interleaved/Sound.antt =====
-- The addresses of src/server.rs where handlers run side by side: whatever waits may still be stored.
use easynet.Prelude.{ℕ, ◌+◌, ◌≤◌, ◌<◌, arith, All, picked-All}
use easynet.Text.{Text}
use easynet.Server.{Client, text_key, handle_disconnect}
use easynet.Server.Lifetime.{should_keep, cleanup_expired_sessions}
use easynet.Server.Addresses.{DistinctAddresses, GivenOut, remove-All}
use easynet.Server.Runs.{retain-All, handle_disconnect-IsSound, cleanup-IsSound, initial-IsSound}
use easynet.Server.Interleaved.{
  Handlers, Step, chooses, stores, send_fails, disconnects, disconnects_any, drop_session,
  cleans_up, Reachable, starts, goes_on,
}
use easynet.Server.Interleaved.Moves.{
  MayStore, AllAgree, IsSoundTogether, picked-AllAgree, StepsTogether, choose-IsSoundTogether,
}
use easynet.Server.Interleaved.Storing.{
  store-IsSoundTogether, shrunk-IsSoundTogether, handle_disconnect-All, drop_session-IsSound,
}

Step-IsSoundTogether :
    {g h : Handlers}
    → IsSoundTogether g
    → (g.state).next_client_id < 256
    → Step g h
    → StepsTogether g h
unfolding cleanup_expired_sessions drop_session
Step-IsSoundTogether v room (chooses h w config src tx id token admitted) =
    choose-IsSoundTogether h w config src tx id v room
Step-IsSoundTogether v room (stores s u l r k) = store-IsSoundTogether s u l r k v
Step-IsSoundTogether v room (send_fails s u l r k) = (
  record {
    sound = v.sound;
    safe = (picked-All (MayStore s) k v.safe).1;
    agree = (picked-AllAgree k v.agree).1;
  },
  omega arith,
)
Step-IsSoundTogether v room (disconnects h addr) =
    let (same, fewer) = handle_disconnect-All h.state addr in
    shrunk-IsSoundTogether h (handle_disconnect h.state addr) v
      (handle_disconnect-IsSound h.state addr v.sound) (omega (arith, same)) fewer
Step-IsSoundTogether v room (disconnects_any h addr id client held same) =
    shrunk-IsSoundTogether h (drop_session id h.state) v (drop_session-IsSound id h.state v.sound)
      (omega arith) (λ P. remove-All P id (h.state).sessions)
Step-IsSoundTogether v room (cleans_up h now) =
    shrunk-IsSoundTogether h (cleanup_expired_sessions h.state now) v
      (cleanup-IsSound h.state now v.sound) (omega arith)
      (λ P. retain-All (λ (e : Text × Client). should_keep now e.1) P (h.state).sessions)

Reachable-IsSoundTogether :
    {n : ℕ} {h : Handlers}
    → Reachable n h
    → n ≤ 254
    → IsSoundTogether h × ((h.state).next_client_id ≤ n + 2)
Reachable-IsSoundTogether starts le =
    (record { sound = initial-IsSound; safe = tt; agree = tt }, omega arith)
Reachable-IsSoundTogether (goes_on n g h before step) le =
    let (v, counter) = Reachable-IsSoundTogether before (omega arith) in
    let (v', later) = Step-IsSoundTogether v (omega arith) step in (v', omega arith)

-- Handlers run side by side, with any number of handshakes waiting for their sends. In every state
-- that at most 254 steps lead to, no two sessions have the same id or the same virtual address, and
-- every session's address is 10.0.0.i for an i of at least 2 below the counter, which is at most
-- 256; the address of a handshake that waits was given out in this way and stands, if anywhere,
-- under its own session id, so it may be stored whenever its send returns; and two that wait with
-- one address have one id.
pub Reachable-AllAgree :
    (n : ℕ) (h : Handlers)
    → Reachable n h
    → n ≤ 254
    → DistinctAddresses (h.state).sessions
      × All (GivenOut (h.state).next_client_id) (h.state).sessions
      × ((h.state).next_client_id ≤ 256)
      × All (MayStore h.state) h.waiting
      × AllAgree h.waiting
Reachable-AllAgree n h r le =
    let (v, counter) = Reachable-IsSoundTogether r le in
    ((v.sound).distinct, (v.sound).given, (v.sound).high, v.safe, v.agree)
