-- ===== src/Proxy/Sessions.antt =====
-- The session table that `handle_inbound_datagram` of src/transparent_proxy/udp_proxy.rs and
-- `handle_inbound_icmp` of src/transparent_proxy/icmp_proxy.rs share, with the tasks that it feeds
-- and the count of the active ones. A channel is the number of the task at its other end.
pub mod Invariant
pub mod Moves
pub mod Reached
use easynet.Prelude.{
  ℕ, ◌+◌, ◌-◌, ◌≡◌, refl, Bool, true, false, Option, none, some, List, [], ◌∷◌, ◌==◌, if◌then◌else◌,
}
use easynet.Assoc.{Key, get, insert, remove}

-- A task: not there, spawned and not begun, in its loop, or behind the removal of its table entry.
-- The receiving end of its channel lives as long as the task.
pub data Task (K : Type 0) : Type 0 where
  absent : Task K
  spawned running closing : K → Task K

abbrev pub change {ℓ} : {A : Type ℓ} → (ℕ → A) → ℕ → A → ℕ → A
change f i a j = if i == j then a else f j

module _ {K : Type 0} ⦃e : Key K⦄ where
  abbrev pub is_open : Task K → Bool
  is_open absent = false
  is_open _ = true

-- `sessions`, the tasks that were spawned, the counter of `ProxyStats`, and the channel that the loop
-- of the inbound packets holds between the release of the lock and its send.
pub record Table (K : Type 0) : Type 0 where
  pub sessions : List (K × ℕ)
  pub tasks : ℕ → Task K
  pub next_task : ℕ
  pub active : ℕ
  pub pending : Option (ℕ × K)

abbrev pub empty_table : (K : Type 0) → Table K
empty_table K = record {
  sessions = [];
  tasks = λ i. absent;
  next_task = 0;
  active = 0;
  pending = none;
}

-- Where a packet went: to a task's channel, or nowhere, for the receiving end was gone.
pub data Delivery : Type 0 where
  queued : ℕ → Delivery
  lost : Delivery

module _ {K : Type 0} ⦃e : Key K⦄ where
  abbrev pub found_or_spawned : Table K → K → Option ℕ → Table K
  found_or_spawned t key (some tx) = record t { pending = some (tx, key) }
  found_or_spawned t key none = record t {
    sessions = insert key t.next_task t.sessions;
    tasks = change t.tasks t.next_task (spawned key);
    next_task = t.next_task + 1;
    pending = some (t.next_task, key);
  }

  -- The channel of the key, found or made with its task, under the lock.
  unfoldable pub take_channel : Table K → K → Table K
  take_channel t key = found_or_spawned t key (get key t.sessions)

  -- The send behind the lock. Where the receiving end is gone, the entry is removed.
  unfoldable pub send_packet : Table K → ℕ → K → Delivery × Table K
  send_packet t tx key =
      if is_open (t.tasks tx)
      then (queued tx, record t { pending = none })
      else (lost, record t { sessions = remove key t.sessions; pending = none })

  -- The task begins and counts itself.
  unfoldable pub begin_task : Table K → ℕ → K → Table K
  begin_task t tx key = record t { tasks = change t.tasks tx (running key); active = t.active + 1 }

  -- The task returns at its start, since it has no target.
  unfoldable pub refuse_task : Table K → ℕ → Table K
  refuse_task t tx = record t { tasks = change t.tasks tx absent }

  -- The loop of the task has ended: its entry is removed.
  unfoldable pub finish_task : Table K → ℕ → K → Table K
  finish_task t tx key = record t {
    sessions = remove key t.sessions;
    tasks = change t.tasks tx (closing key);
  }

  -- The task is no longer counted and its channel is dropped.
  unfoldable pub drop_task : Table K → ℕ → Table K
  drop_task t tx = record t { tasks = change t.tasks tx absent; active = t.active - 1 }

  -- The steps of the proxy. Only where `may_refuse` can a task refuse.
  pub data Step (may_refuse : Bool) : Table K → Table K → Type 0 where
    arrives : (t : Table K) (key : K) → t.pending ≡ none → Step may_refuse t (take_channel t key)
    sends :
        (t : Table K) (tx : ℕ) (key : K)
        → t.pending ≡ some (tx, key)
        → Step may_refuse t (send_packet t tx key).1
    begins :
        (t : Table K) (tx : ℕ) (key : K)
        → t.tasks tx ≡ spawned key
        → Step may_refuse t (begin_task t tx key)
    refuses :
        (t : Table K) (tx : ℕ) (key : K)
        → may_refuse ≡ true
        → t.tasks tx ≡ spawned key
        → Step may_refuse t (refuse_task t tx)
    finishes :
        (t : Table K) (tx : ℕ) (key : K)
        → t.tasks tx ≡ running key
        → Step may_refuse t (finish_task t tx key)
    drops :
        (t : Table K) (tx : ℕ) (key : K)
        → t.tasks tx ≡ closing key
        → Step may_refuse t (drop_task t tx)

  pub data Reach (may_refuse : Bool) : Table K → Type 0 where
    start : Reach may_refuse (empty_table K)
    later : {t u : Table K} → Reach may_refuse t → Step may_refuse t u → Reach may_refuse u
