-- ===== src/Proxy/Sessions/Moves.antt =====
-- Each step of a session table of src/transparent_proxy keeps its invariant.
use easynet.Prelude.{
  ℕ, ◌<◌, ◌≡◌, ◌≢◌, inl, inr, ap, Bool, true, some, arith, ltb, ltb→lt, Bool-cases, Option-cases,
}
use easynet.Assoc.{Key, get, get-insert, get-remove}
use easynet.Proxy.Sessions.{
  absent, spawned, running, closing, is_open, Table, take_channel, send_packet, begin_task,
  refuse_task, finish_task, drop_task,
}
use easynet.Proxy.Sessions.Invariant.{counted, counted-change_above, counted-change, owned, Inv}

module _ {K : Type 0} ⦃e : Key K⦄ {may_refuse : Bool} {t : Table K} (inv : Inv may_refuse t) where
  -- A task with no place among the numbers given out is not there.
  pub below : (tx : ℕ) → t.tasks tx ≢ absent → tx < t.next_task
  below tx there = elim (Bool-cases (ltb tx t.next_task)) [
    | inl yes_below ↦ ltb→lt tx t.next_task yes_below
    | inr above ↦ absurd (there (inv.fresh tx (ground arith)))
  ]

  pub begin_task-Inv :
      (tx : ℕ) (key : K) → t.tasks tx ≡ spawned key → Inv may_refuse (begin_task t tx key)
  unfolding begin_task
  begin_task-Inv tx key h =
      let small = below tx (λ a. cc) in
      record {
        fresh = λ i above. ground (arith, inv.fresh i);
        entries = λ k i found. ground (arith, inv.entries k i);
        owners = λ k i mine. ground (arith, inv.owners k i, inv.owners k tx);
        right_count =
            ground (arith, inv.right_count, counted-change t.next_task t.tasks tx (running key));
        held = λ k i waits. ground (arith, inv.held k i);
      }

  pub refuse_task-Inv :
      (tx : ℕ) (key : K)
      → may_refuse ≡ true
      → t.tasks tx ≡ spawned key
      → Inv may_refuse (refuse_task t tx)
  unfolding refuse_task
  refuse_task-Inv tx key may h =
      let small = below tx (λ a. cc) in
      record {
        fresh = λ i above. ground (arith, inv.fresh i);
        entries = λ k i found. ground (arith, inv.entries k i);
        owners = λ k i mine. ground (arith, inv.owners k i);
        right_count = ground (arith, inv.right_count, counted-change t.next_task t.tasks tx absent);
        held = λ k i waits. ground (arith, inv.held k i);
      }

  pub drop_task-Inv :
      (tx : ℕ) (key : K) → t.tasks tx ≡ closing key → Inv may_refuse (drop_task t tx)
  unfolding drop_task
  drop_task-Inv tx key h =
      let small = below tx (λ a. cc) in
      record {
        fresh = λ i above. ground (arith, inv.fresh i);
        entries = λ k i found. ground (arith, inv.entries k i);
        owners = λ k i mine. ground (arith, inv.owners k i);
        right_count = ground (arith, inv.right_count, counted-change t.next_task t.tasks tx absent);
        held = λ k i waits. ground (arith, inv.held k i);
      }

  pub finish_task-Inv :
      (tx : ℕ) (key : K) → t.tasks tx ≡ running key → Inv may_refuse (finish_task t tx key)
  unfolding finish_task
  finish_task-Inv tx key h =
      let small = below tx (λ a. cc) in
      let mine : get key t.sessions ≡ some tx = inv.owners key tx (ap owned h) in
      record {
        fresh = λ i above. ground (arith, inv.fresh i);
        entries = λ k i found.
            ground (arith, inv.entries k i, get-remove key k t.sessions, e.beq_iff key k, mine);
        owners = λ k i own.
            ground (arith, inv.owners k i, get-remove key k t.sessions, e.beq_iff key k, mine);
        right_count =
            ground (arith, inv.right_count, counted-change t.next_task t.tasks tx (closing key));
        held =
            λ k i waits. ground (arith, inv.held k i, get-remove key k t.sessions, e.beq_iff key k);
      }

  pub take_channel-Inv : (key : K) → Inv may_refuse (take_channel t key)
  unfolding take_channel counted
  take_channel-Inv key = elim (Option-cases (get key t.sessions)) [
    | inr (tx, found) ↦
        rw (found, take_channel)
          (record {
            fresh = inv.fresh;
            entries = inv.entries;
            owners = inv.owners;
            right_count = inv.right_count;
            held = λ k i waits. ground (arith, inv.entries key tx, found);
          })
    | inl missing ↦
        rw (missing, take_channel)
          (record {
            fresh = λ i above. ground (arith, inv.fresh i);
            entries = λ k i found.
                ground (
                  arith,
                  inv.entries k i,
                  get-insert key k t.next_task t.sessions,
                  e.beq_iff key k,
                );
            owners = λ k i own. ground (
              arith,
              inv.owners k i,
              inv.fresh t.next_task,
              get-insert key k t.next_task t.sessions,
              e.beq_iff key k,
              missing,
            );
            right_count = ground (
              arith,
              inv.right_count,
              counted-change_above t.next_task t.tasks t.next_task (spawned key),
            );
            held = λ k i waits.
                ground (arith, get-insert key k t.next_task t.sessions, e.beq_iff key k);
          })
  ]

  pub send_packet-Inv :
      (tx : ℕ) (key : K) → t.pending ≡ some (tx, key) → Inv may_refuse (send_packet t tx key).1
  unfolding send_packet
  send_packet-Inv tx key waits = elim (Bool-cases (is_open (t.tasks tx))) [
    | inl there ↦ rw there (record {
      fresh = inv.fresh;
      entries = inv.entries;
      owners = inv.owners;
      right_count = inv.right_count;
      held = λ k i h. cc;
    })
    | inr gone ↦ rw gone (record {
      fresh = inv.fresh;
      entries = λ k i found.
          ground (arith, inv.entries k i, get-remove key k t.sessions, e.beq_iff key k);
      owners = λ k i own.
          ground
            (arith, inv.owners k i, inv.held key tx, get-remove key k t.sessions, e.beq_iff key k);
      right_count = inv.right_count;
      held = λ k i h. cc;
    })
  ]
