-- ===== src/Proxy/Sessions/Invariant.antt =====
-- What a session table of src/transparent_proxy keeps: its entries and its tasks belong together.
use easynet.Prelude.{
  ℕ, zero, suc, ◌+◌, ◌≤◌, ◌<◌, ◌≡◌, ◌⊎◌, inl, inr, refl, Bool, true, Option, none, some, ◌==◌,
  arith, Bool-cases,
}
use easynet.Assoc.{Key, get}
use easynet.Proxy.Sessions.{Task, absent, spawned, running, closing, change, Table, empty_table}

module _ {K : Type 0} where
  -- The tasks that count themselves: those in their loop, and those behind it.
  abbrev pub counts : Task K → ℕ
  counts (running k) = 1
  counts (closing k) = 1
  counts _ = 0

  unfoldable pub counted : ℕ → (ℕ → Task K) → ℕ
  counted zero f = 0
  counted (suc n) f = counts (f n) + counted n f

  pub counted-change_above :
      (n : ℕ) (f : ℕ → Task K) (i : ℕ) (a : Task K) → n ≤ i → counted n (change f i a) ≡ counted n f
  unfolding counted
  counted-change_above zero f i a h = refl
  counted-change_above (suc n) f i a h = ground (arith, counted-change_above n f i a)

  pub counted-change :
      (n : ℕ) (f : ℕ → Task K) (i : ℕ) (a : Task K)
      → i < n
      → counted n (change f i a) + counts (f i) ≡ counted n f + counts a
  unfolding counted
  counted-change zero f i a h = absurd (omega arith)
  counted-change (suc n) f i a h = elim (Bool-cases (i == n)) [
    | inl last ↦ ground (arith, counted-change_above n f i a)
    | inr below ↦ ground (arith, counted-change n f i a)
  ]

  -- The key that a task owns in the table.
  abbrev pub owned : Task K → Option K
  owned (spawned k) = some k
  owned (running k) = some k
  owned _ = none

  -- A task that is there works for the key.
  abbrev pub WorksFor : K → Task K → Type 0
  WorksFor k absent = Unit
  WorksFor k (spawned j) = j ≡ k
  WorksFor k (running j) = j ≡ k
  WorksFor k (closing j) = j ≡ k

-- The entries belong to tasks in front of the end of their loop, or, where tasks may refuse, to ones
-- that are gone; each such task has its entry; the count is right; and what the loop holds is a
-- channel of the key, whose entry is that one or none.
pub record Inv {K : Type 0} ⦃e : Key K⦄ (may_refuse : Bool) (t : Table K) : Type 0 where
  pub fresh : (i : ℕ) → t.next_task ≤ i → t.tasks i ≡ absent
  pub entries :
      (k : K) (tx : ℕ)
      → get k t.sessions ≡ some tx
      → (tx < t.next_task)
        × ((owned (t.tasks tx) ≡ some k) ⊎ ((t.tasks tx ≡ absent) × (may_refuse ≡ true)))
  pub owners : (k : K) (tx : ℕ) → owned (t.tasks tx) ≡ some k → get k t.sessions ≡ some tx
  pub right_count : t.active ≡ counted t.next_task t.tasks
  pub held :
      (k : K) (tx : ℕ)
      → t.pending ≡ some (tx, k)
      → WorksFor k (t.tasks tx) × ((get k t.sessions ≡ some tx) ⊎ (get k t.sessions ≡ none))

module _ {K : Type 0} ⦃e : Key K⦄ (may_refuse : Bool) where
  pub Inv-empty : Inv may_refuse (empty_table K)
  unfolding get counted
  Inv-empty = record {
    fresh = λ i h. refl;
    entries = λ k tx h. cc;
    owners = λ k tx h. cc;
    right_count = refl;
    held = λ k tx h. cc;
  }
