-- ===== src/Proxy/Sessions/Reached.antt =====
-- What holds in every reached state of a session table of src/transparent_proxy.
use easynet.Prelude.{ℕ, ◌≡◌, ◌≢◌, ◌⊎◌, ◌↔◌, inl, inr, ap, Bool, false, some, arith, Bool-cases}
use easynet.Assoc.{Key, get}
use easynet.Proxy.Sessions.{
  absent, is_open, Table, queued, lost, send_packet, Step, arrives, sends, begins, refuses,
  finishes, drops, Reach, start, later,
}
use easynet.Proxy.Sessions.Invariant.{counted, owned, WorksFor, Inv, Inv-empty}
use easynet.Proxy.Sessions.Moves.{
  begin_task-Inv, refuse_task-Inv, drop_task-Inv, finish_task-Inv, take_channel-Inv,
  send_packet-Inv,
}

module _ {K : Type 0} ⦃e : Key K⦄ {may_refuse : Bool} where
  Step-Inv : {t u : Table K} → Step may_refuse t u → Inv may_refuse t → Inv may_refuse u
  Step-Inv (arrives t key _) inv = take_channel-Inv inv key
  Step-Inv (sends t tx key waits) inv = send_packet-Inv inv tx key waits
  Step-Inv (begins t tx key h) inv = begin_task-Inv inv tx key h
  Step-Inv (refuses t tx key may h) inv = refuse_task-Inv inv tx key may h
  Step-Inv (finishes t tx key h) inv = finish_task-Inv inv tx key h
  Step-Inv (drops t tx key h) inv = drop_task-Inv inv tx key h

  pub Reach-Inv : {t : Table K} → Reach may_refuse t → Inv may_refuse t
  Reach-Inv start = Inv-empty may_refuse
  Reach-Inv (later r st) = Step-Inv st (Reach-Inv r)

  -- In every reached state the number of active sessions is that of the tasks that have begun and are
  -- still there.
  pub Reach-active : {t : Table K} → Reach may_refuse t → t.active ≡ counted t.next_task t.tasks
  Reach-active r = (Reach-Inv r).right_count

  -- In every reached state, a packet that is queued goes to a task that is there and works for the
  -- packet's own key; and where the channel turns out to be closed, the entry that is then removed
  -- belongs to no task in front of the end of its loop.
  pub send_packet-WorksFor :
      {t : Table K}
      → Reach may_refuse t
      → (tx : ℕ) (key : K) → t.pending ≡ some (tx, key)
      → (((send_packet t tx key).0 ≡ queued tx) × WorksFor key (t.tasks tx) × (t.tasks tx ≢ absent))
        ⊎ (((send_packet t tx key).0 ≡ lost) × ((i : ℕ) → owned (t.tasks i) ≢ some key))
  unfolding send_packet
  send_packet-WorksFor {t} r tx key waits = elim (Bool-cases (is_open (t.tasks tx))) [
    | inl there ↦ inl (rw there, ((Reach-Inv r).held key tx waits).0, λ gone. cc (ap is_open gone))
    | inr gone ↦ inr (
      rw gone,
      λ i own.
          ground (arith, (Reach-Inv r).held key tx waits, (Reach-Inv r).owners key i own, gone),
    )
  ]

-- Where no task refuses, in every reached state a key stands in the table with a task's channel
-- exactly when that task is spawned or running for the key; so no two such tasks have one key.
pub Reach-entry_iff :
    {K : Type 0} ⦃e : Key K⦄ {t : Table K}
    → Reach false t
    → (k : K) (tx : ℕ) → (get k t.sessions ≡ some tx) ↔ (owned (t.tasks tx) ≡ some k)
Reach-entry_iff {t} r k tx =
    (λ found. ground (arith, (Reach-Inv r).entries k tx found), (Reach-Inv r).owners k tx)
