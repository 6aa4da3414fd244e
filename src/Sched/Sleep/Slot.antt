-- ===== src/Sched/Sleep/Slot.antt =====
-- The search of `_lthread_sched_sleep` in src/lthread_sched.c for a free key.
use lthread.Base.{
  ℕ, zero, suc, ◌+◌, ◌%◌, ◌≤◌, ◌<◌, ◌≡◌, ◌≢◌, refl, ap, ◌∙◌, true, false, Option-cases, inl, inr,
  none, some, arith, length, ==_ne, update,
}
use lthread.Rb.{RbTree}
use lthread.Rb.Laws.{count_from, count_from-le}
use lthread.Rb.Tree.{insert_none, insert_none-count, insert_free, find-insert_tree}
use lthread.Sched.State.{sleeping, set_bit, u64, Sched, has}
use lthread.Sched.Sleep.{insert_sleeper, yield_begin, sleep_fuel, deadline, sched_sleep_begin}
use lthread.Sched.Sleep.Inv.{SleepersAgree, insert-Agrees, update-Agrees}

module _ ⦃T : RbTree⦄ where
  -- the outcome of the loop from the key `k` on: the first free key, and the tree with it
  pub record Slot (k p : ℕ) (t : T.Tree) (out : ℕ × T.Tree) : Type 0 where
    pub from : k ≤ out.0
    pub to : out.0 ≤ k + length (T.entries t)
    pub inserted : T.insert out.0 p t ≡ some out.1
    pub first : (j : ℕ) → k ≤ j → j < out.0 → T.find j t ≢ none

  insert_sleeper_hit :
      (f k p : ℕ) (t : T.Tree) {t' : T.Tree}
      → T.insert k p t ≡ some t'
      → insert_sleeper (suc f) k p t ≡ some (k, t')
  unfolding insert_sleeper
  insert_sleeper_hit f k p t e = ground arith

  insert_sleeper_taken :
      (f k p : ℕ) (t : T.Tree)
      → T.insert k p t ≡ none
      → insert_sleeper (suc f) k p t ≡ insert_sleeper f ((k + 1) % u64) p t
  unfolding insert_sleeper
  insert_sleeper_taken f k p t e = ground arith

  insert_sleeper_from :
      (f k p : ℕ) (t : T.Tree)
      → count_from k (T.entries t) < f
      → k + count_from k (T.entries t) < u64
      → (k' : ℕ) × (t' : T.Tree) × (insert_sleeper f k p t ≡ some (k', t'))
        × (k ≤ k')
        × (k' ≤ k + count_from k (T.entries t))
        × (T.insert k' p t ≡ some t')
        × ((j : ℕ) → k ≤ j → j < k' → T.find j t ≢ none)
  insert_sleeper_from zero k p t h b = absurd (omega arith)
  insert_sleeper_from (suc f) k p t h b = elim (Option-cases (T.insert k p t)) [
    | inr (t', e) ↦ (
      k,
      t',
      insert_sleeper_hit f k p t e,
      omega arith,
      omega arith,
      e,
      λ j from below. absurd (omega arith),
    )
    | inl e ↦
        let fewer = insert_none-count t k p e in
        let wrap : (k + 1) % u64 ≡ k + 1 = omega arith in
        let (k', t', run, from, to, ins, first) =
          insert_sleeper_from f (k + 1) p t (omega arith) (omega arith) in
        (
          k',
          t',
          insert_sleeper_taken f k p t e ∙ ap (λ j. insert_sleeper f j p t) wrap ∙ run,
          omega arith,
          omega arith,
          ins,
          λ j from_k below none_at. ground (arith, first j, insert_none t k p e),
        )
  ]

  -- Unless the clock is within a sleeper's count of its end, the loop ends within its fuel, at the
  -- first key from its start on that no sleeper holds.
  pub insert_sleeper_lem :
      (k p : ℕ) (t : T.Tree)
      → k + length (T.entries t) < u64
      → (out : ℕ × T.Tree) × (insert_sleeper (sleep_fuel t) k p t ≡ some out) × Slot k p t out
  insert_sleeper_lem k p t b =
      let few = count_from-le k (T.entries t) in
      let (k', t', run, from, to, ins, first) =
        insert_sleeper_from (sleep_fuel t) k p t (omega arith) (omega arith) in
      ((k', t'), run, record { from = from; to = omega arith; inserted = ins; first = first })

  -- what a thread that starts to sleep leaves behind
  pub record Asleep (p msecs : ℕ) (s s' : Sched) : Type 0 where
    pub agree : SleepersAgree s'
    pub flagged : has p sleeping s' ≡ true
    pub late : deadline msecs s ≤ (s'.lt p).sleep_usecs
    pub crowd : (s'.lt p).sleep_usecs ≤ deadline msecs s + length (T.entries s.sleep_tree)
    pub keeps : (j q : ℕ) → T.find j s.sleep_tree ≡ some q → T.find j s'.sleep_tree ≡ some q
    pub only : (j q : ℕ) → q ≢ p → T.find j s'.sleep_tree ≡ some q → T.find j s.sleep_tree ≡ some q
    pub same_ready : s'.ready_q ≡ s.ready_q

  abbrev fallen_asleep : ℕ → ℕ → T.Tree → Sched → Sched
  fallen_asleep p k t s = yield_begin p (record s {
    sleep_tree = t;
    lt =
        update s.lt p
          (record (s.lt p) { sleep_usecs = k; state = set_bit sleeping (s.lt p).state });
  })

  sched_sleep_begin_run :
      (p msecs : ℕ) (s : Sched) (k : ℕ) (t : T.Tree)
      → 0 < msecs
      → insert_sleeper (sleep_fuel s.sleep_tree) (deadline msecs s) p s.sleep_tree ≡ some (k, t)
      → sched_sleep_begin p msecs s ≡ some (fallen_asleep p k t s)
  unfolding sched_sleep_begin
  sched_sleep_begin_run p msecs s k t pos run = rw (==_ne msecs 0 (omega arith), run)

  -- An awake thread that goes to sleep for a time that is not 0 is put into the sleep tree under a
  -- key from its deadline on, later by at most the number of sleepers; flags and tree agree again,
  -- all other sleepers keep their keys, and the loop that looks for the key ends. The deadline plus
  -- the number of sleepers must be below 2 ^ 64.
  pub sched_sleep_begin-Asleep :
      (p msecs : ℕ) (s : Sched)
      → 0 < msecs
      → deadline msecs s + length (T.entries s.sleep_tree) < u64
      → has p sleeping s ≡ false
      → SleepersAgree s
      → (s' : Sched) × (sched_sleep_begin p msecs s ≡ some s') × Asleep p msecs s s'
  sched_sleep_begin-Asleep p msecs s pos room awake agree =
      let ((k, t), run, slot) = insert_sleeper_lem (deadline msecs s) p s.sleep_tree room in
      (
        fallen_asleep p k t s,
        sched_sleep_begin_run p msecs s k t pos run,
        record {
          agree =
              update-Agrees _ t p _ refl refl
                (insert-Agrees s.lt s.sleep_tree p k _ slot.inserted awake refl refl agree);
          flagged = ground arith;
          late = ground (arith, slot.from);
          crowd = ground (arith, slot.to);
          keeps = λ j q h. ground (
            arith,
            find-insert_tree s.sleep_tree k p slot.inserted j,
            insert_free s.sleep_tree k p slot.inserted agree.sorted,
          );
          only = λ j q ne h. ground (arith, find-insert_tree s.sleep_tree k p slot.inserted j);
          same_ready = refl;
        },
      )
