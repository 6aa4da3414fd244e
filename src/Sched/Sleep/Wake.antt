-- ===== src/Sched/Sleep/Wake.antt =====
-- Waking a thread, and how long the scheduler may sleep: `_lthread_desched_sleep`, the end of
-- `_lthread_sched_sleep` and `_lthread_min_timeout` of src/lthread_sched.c.
use lthread.Base.{
  ℕ, ◌+◌, ◌-◌, ◌≤◌, ◌<◌, ◌≡◌, ◌≢◌, ◌⊎◌, ◌↔◌, refl, ap, sym, ◌∙◌, true, false, Bool-cases,
  Option-cases, inl, inr, some, arith, length, ltb,
}
use lthread.Rb.{RbTree}
use lthread.Rb.Tree.{min?-le, min?-find, find-remove_tree, min?_none}
use lthread.Sched.State.{sleeping, u64, Sched, has, sched_time}
use lthread.Sched.Sleep.{desched_sleep, deadline, sched_sleep_begin, sched_sleep_end, min_timeout}
use lthread.Sched.Sleep.Inv.{SleepersAgree, update_awake-Agrees, desched_sleep-Agrees}
use lthread.Sched.Sleep.Slot.{Asleep, sched_sleep_begin-Asleep}

module _ ⦃T : RbTree⦄ where
  -- how long until a sleeper's deadline, 0 once it has passed
  abbrev pub remaining : ℕ → Sched → ℕ
  remaining p s = (s.lt p).sleep_usecs - sched_time s

  abbrev NobodySleeps : Sched → Type 0
  NobodySleeps s = (q : ℕ) → has q sleeping s ≡ false

  abbrev pub Attained : Sched → Type 0
  Attained s =
      (NobodySleeps s × (min_timeout s ≡ s.default_timeout))
      ⊎ ((p : ℕ) × (has p sleeping s ≡ true) × (min_timeout s ≡ remaining p s))

  -- Where flags and tree agree, the timeout of the poller is at most the time left to the deadline
  -- of each sleeping thread; it is that of one of them, and the default if nobody sleeps.
  pub min_timeout_lem :
      (s : Sched)
      → SleepersAgree s
      → ((q : ℕ) → has q sleeping s ≡ true → min_timeout s ≤ remaining q s) × Attained s
  unfolding min_timeout
  min_timeout_lem s a = elim (Option-cases (T.min? s.sleep_tree)) [
    | inl e ↦ (
      λ q h. ground (arith, a.flagged_in q h, min?_none s.sleep_tree e (s.lt q).sleep_usecs),
      inl (
        λ q. ground (arith, a.flagged_in q, min?_none s.sleep_tree e (s.lt q).sleep_usecs),
        rw (e, min_timeout),
      ),
    )
    | inr ((k, p), e) ↦
        let own = a.in_flagged k p (min?-find s.sleep_tree k p e) in
        (
          λ q h. ground (
            arith,
            min?-le s.sleep_tree k p (s.lt q).sleep_usecs q a.sorted e (a.flagged_in q h),
          ),
          inr (p, own.0, ground (arith, own.1)),
        )
  ]

  pub desched_sleep-awake : (p : ℕ) (s : Sched) → has p sleeping (desched_sleep p s) ≡ false
  unfolding desched_sleep
  desched_sleep-awake p s = ground arith

  -- Waking touches no queue.
  pub desched_sleep-queues :
      (p : ℕ) (s : Sched)
      → ((desched_sleep p s).blocked ≡ s.blocked)
        × ((desched_sleep p s).ready_q ≡ s.ready_q)
        × ((desched_sleep p s).busy_l ≡ s.busy_l)
        × ((desched_sleep p s).wait_tree ≡ s.wait_tree)
        × ((desched_sleep p s).current_lthread ≡ s.current_lthread)
  unfolding desched_sleep
  desched_sleep-queues p s = ground arith

  -- "This can be called multiple times on the same lthread."
  pub desched_sleep-desched_sleep :
      (p : ℕ) (s : Sched) → desched_sleep p (desched_sleep p s) ≡ desched_sleep p s
  unfolding desched_sleep
  desched_sleep-desched_sleep p s = ground arith

  -- what waking `p` does to the others: nothing
  pub record Woken (p : ℕ) (s s' : Sched) : Type 0 where
    pub agree : SleepersAgree s'
    pub awake : has p sleeping s' ≡ false
    pub gone : (j : ℕ) → T.find j s'.sleep_tree ≢ some p
    pub others :
        (j q : ℕ) → q ≢ p → (T.find j s'.sleep_tree ≡ some q) ↔ (T.find j s.sleep_tree ≡ some q)
    pub same_lt : (q : ℕ) → q ≢ p → s'.lt q ≡ s.lt q
    pub same_ready : s'.ready_q ≡ s.ready_q

  -- Waking a thread takes it out of the sleep tree and clears its flag, whether it slept or not;
  -- flags and tree agree, and no other thread, key or ready queue changes.
  pub desched_sleep-Woken : (p : ℕ) (s : Sched) → SleepersAgree s → Woken p s (desched_sleep p s)
  unfolding desched_sleep
  desched_sleep-Woken p s a = elim (Bool-cases (has p sleeping s)) [
    | inl asleep ↦
        let own = a.flagged_in p asleep in
        let step = λ (j : ℕ). find-remove_tree s.sleep_tree (s.lt p).sleep_usecs j a.sorted in
        record {
          agree = desched_sleep-Agrees p s a;
          awake = desched_sleep-awake p s;
          gone = λ j. ground (arith, step j, a.in_flagged j p);
          others = λ j q ne. (ground (arith, step j), ground (arith, step j));
          same_lt = λ q ne. ground arith;
          same_ready = ground arith;
        }
    | inr awake ↦ record {
      agree = desched_sleep-Agrees p s a;
      awake = desched_sleep-awake p s;
      gone = λ j. ground (arith, a.in_flagged j p);
      others = λ j q ne. (ground arith, ground arith);
      same_lt = λ q ne. ground arith;
      same_ready = ground arith;
    }
  ]

  -- A thread that was woken before it runs again leaves flags and tree in agreement.
  pub sched_sleep_end-Agrees :
      (p msecs : ℕ) (s : Sched)
      → has p sleeping s ≡ false
      → SleepersAgree s
      → SleepersAgree (sched_sleep_end p msecs s)
  unfolding sched_sleep_end
  sched_sleep_end-Agrees p msecs s h a = elim (Bool-cases (ltb 0 msecs)) [
    | inl pos ↦ rw pos (
        update_awake-Agrees _ s.sleep_tree p _ (ground arith) (ground arith)
          (update_awake-Agrees s.lt s.sleep_tree p _ refl h a))
    | inr nil ↦ rw nil (update_awake-Agrees s.lt s.sleep_tree p _ h h a)
  ]

  sleep_tree-sched_sleep_end :
      (p msecs : ℕ) (s : Sched) → (sched_sleep_end p msecs s).sleep_tree ≡ s.sleep_tree
  unfolding sched_sleep_end
  sleep_tree-sched_sleep_end p msecs s = ground arith

  find_roundtrip :
      (p msecs : ℕ) (s s' s'' : Sched)
      → has p sleeping s ≡ false
      → SleepersAgree s
      → Asleep p msecs s s'
      → Woken p s' s''
      → (j : ℕ) → T.find j s''.sleep_tree ≡ T.find j s.sleep_tree
  find_roundtrip p msecs s s' s'' awake a z w j = elim (Option-cases (T.find j s.sleep_tree)) [
    | inr (q, e) ↦
        let ne : q ≢ p = λ same. ground (arith, a.in_flagged j q e) in
        (w.others j q ne).1 (z.keeps j q e) ∙ sym e
    | inl e ↦ elim (Option-cases (T.find j s''.sleep_tree)) [
      | inl e' ↦ e' ∙ sym e
      | inr (q, e') ↦
          let ne : q ≢ p = λ same. ground (arith, w.gone j) in
          absurd (cc (z.only j q ne ((w.others j q ne).0 e')))
    ]
  ]

  -- Sleeping and waking cancel out: once the thread that went to sleep is woken and has finished
  -- _lthread_sched_sleep, every key of the sleep tree holds what it held before, and flags and tree
  -- agree. The thread must be awake before, the time not 0, and the deadline plus the number of
  -- sleepers below 2 ^ 64.
  pub sleep_wake_roundtrip :
      (p msecs : ℕ) (s : Sched)
      → 0 < msecs
      → deadline msecs s + length (T.entries s.sleep_tree) < u64
      → has p sleeping s ≡ false
      → SleepersAgree s
      → (s' : Sched) × (sched_sleep_begin p msecs s ≡ some s')
        × SleepersAgree (sched_sleep_end p msecs (desched_sleep p s'))
        × ((j : ℕ)
            → T.find j (sched_sleep_end p msecs (desched_sleep p s')).sleep_tree
              ≡ T.find j s.sleep_tree)
  sleep_wake_roundtrip p msecs s pos room awake a =
      let (s', run, z) = sched_sleep_begin-Asleep p msecs s pos room awake a in
      let w = desched_sleep-Woken p s' z.agree in
      (
        s',
        run,
        sched_sleep_end-Agrees p msecs _ w.awake w.agree,
        λ j.
            ap (T.find j) (sleep_tree-sched_sleep_end p msecs (desched_sleep p s'))
            ∙ find_roundtrip p msecs s s' (desched_sleep p s') awake a z w j,
      )
