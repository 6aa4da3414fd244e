-- ===== src/Run/Late.antt =====
-- How `_lthread_resume_expired` of src/lthread_sched.c changes the number of overdue sleepers.
use lthread.Base.{
  ℕ, ◌≤◌, ◌<◌, ◌≡◌, ◌≢◌, ◌⊎◌, sym, subst, true, Bool-cases, Option-cases, inl, inr, Option, none,
  some, arith, ◌==◌, update, ==_eq,
}
use lthread.Rb.{RbTree}
use lthread.Rb.Tree.{overdue, remove-overdue, remove_found-overdue}
use lthread.Sched.State.{LthreadEvent, sleeping, Sched, has}
use lthread.Sched.Sleep.{desched_sleep}
use lthread.Sched.Sleep.Inv.{SleepersAgree}
use lthread.Sched.Sleep.Wake.{desched_sleep-Woken}
use lthread.Sched.Event.{
  fd_key, fd_only, fd_event, desched_event, clear_interest, desched_key, cancel_event,
}
use lthread.Sched.Event.Keeps.{cancel_event-Agrees, clear_interest-Agrees}
use lthread.Run.{expire}

module _ ⦃T : RbTree⦄ where
  -- the sleepers whose deadline has passed
  abbrev pub late : ℕ → Sched → ℕ
  late n s = overdue s.sleep_tree n

  pub desched_sleep-late : (n p : ℕ) (s : Sched) → late n (desched_sleep p s) ≤ late n s
  unfolding desched_sleep
  desched_sleep-late n p s = elim (Bool-cases (has p sleeping s)) [
    | inl asleep ↦ rw asleep (remove-overdue s.sleep_tree n (s.lt p).sleep_usecs)
    | inr awake ↦ rw awake (omega arith)
  ]

  module _ (n p : ℕ) where
    -- `p` sleeps, and its deadline has passed.
    abbrev pub IsLate : Sched → Type 0
    IsLate s = SleepersAgree s × (has p sleeping s ≡ true) × ((s.lt p).sleep_usecs ≤ n)

    -- Either somebody late was woken, or `p` is as late as before.
    abbrev pub Progress : Sched → Sched → Type 0
    Progress s s' = (late n s' < late n s) ⊎ (IsLate s' × (late n s' ≤ late n s))

    desched_sleep_self : (s : Sched) → IsLate s → late n (desched_sleep p s) < late n s
    unfolding desched_sleep
    desched_sleep_self s (a, asleep, due) =
        rw asleep
          (remove_found-overdue s.sleep_tree n (s.lt p).sleep_usecs p (a.flagged_in p asleep) due)

    desched_sleep-Progress : (q : ℕ) (s : Sched) → IsLate s → Progress s (desched_sleep q s)
    desched_sleep-Progress q s l = elim (Bool-cases (p == q)) [
      | inl same ↦ inl (rw (sym (==_eq p q same)) (desched_sleep_self s l))
      | inr other ↦
          let w = desched_sleep-Woken q s l.0 in
          let ne : p ≢ q = ground arith in
          let own = w.same_lt p ne in
          inr ((w.agree, ground (arith, own), ground (arith, own)), desched_sleep-late n q s)
    ]

    desched_event-Progress :
        (fd : ℕ) (e : LthreadEvent) (s : Sched) → IsLate s → Progress s (desched_event fd e s).1
    unfolding desched_event
    desched_event-Progress fd e s l = elim (Option-cases (T.find (fd_key fd e) s.wait_tree)) [
      | inl f ↦ rw (f, desched_event) (inr (l, omega arith))
      | inr (q, f) ↦
          rw (f, desched_event)
            (desched_sleep-Progress q (record s { wait_tree = T.remove (fd_key fd e) s.wait_tree })
              l)
    ]

    desched_key-Progress : (k : Option ℕ) (s : Sched) → IsLate s → Progress s (desched_key k s)
    desched_key-Progress none s l = inr (l, omega arith)
    desched_key-Progress (some k) s l = desched_event-Progress (fd_only k) (fd_event k) s l

    IsLate-clear_interest : (s : Sched) → IsLate s → IsLate (clear_interest p s)
    IsLate-clear_interest s l = (clear_interest-Agrees p s l.0, ground arith, ground arith)

    clear_interest-tree : (s : Sched) → (clear_interest p s).sleep_tree ≡ s.sleep_tree
    clear_interest-tree s = ground arith

    -- Only the tree, the flag and the deadline of `p` decide how late it is.
    Progress-fd_wait :
        (s c d : Sched)
        → c.sleep_tree ≡ s.sleep_tree
        → SleepersAgree (record d { lt = update d.lt p (record (d.lt p) { fd_wait = none }) })
        → Progress c d
        → Progress s (record d { lt = update d.lt p (record (d.lt p) { fd_wait = none }) })
    Progress-fd_wait s c d e a (inl fewer) =
        inl (subst (λ (t : T.Tree). overdue d.sleep_tree n < overdue t n) e fewer)
    Progress-fd_wait s c d e a (inr (l, le)) = inr (
      (a, ground (arith, l), ground (arith, l)),
      subst (λ (t : T.Tree). overdue d.sleep_tree n ≤ overdue t n) e le,
    )

    cancel_event-Progress : (s : Sched) → IsLate s → Progress s (cancel_event p s)
    unfolding cancel_event
    cancel_event-Progress s l =
        let c = clear_interest p s in
        Progress-fd_wait s c (desched_key (c.lt p).fd_wait c) (clear_interest-tree s)
          (cancel_event-Agrees p s l.0)
          (desched_key-Progress (c.lt p).fd_wait c (IsLate-clear_interest s l))

    -- Expiring a late thread leaves fewer late sleepers.
    pub expire-late : (s : Sched) → IsLate s → late n (expire p s) < late n s
    unfolding expire
    expire-late s l = elim (cancel_event-Progress s l) [
      | inl fewer ↦ omega (arith, fewer, desched_sleep-late n p (cancel_event p s))
      | inr (still, le) ↦ omega (arith, le, desched_sleep_self (cancel_event p s) still)
    ]
