-- ===== src/Run/Total.antt =====
-- The loop of `_lthread_resume_expired` of src/lthread_sched.c as a whole.
use lthread.Base.{
  ℕ, zero, suc, ◌≤◌, ◌<◌, ◌≡◌, refl, ap, sym, subst, true, false, Bool, Bool-cases, Option-cases,
  inl, inr, some, arith, leb, ◌==◌,
}
use lthread.Rb.{RbTree}
use lthread.Rb.Tree.{overdue, min?-find}
use lthread.Sched.State.{exited, detach, pending_runcompute, new, Sched, has}
use lthread.Sched.Sleep.Inv.{SleepersAgree}
use lthread.Thread.{wake_joiner, free_if_detached, resume_cancelled, resume_after, prepare, resume}
use lthread.Thread.Keeps.{resume_cases, resume-Agrees}
use lthread.Run.{Outcome, ran, fault, out_of_fuel, expire, after_resume, resume_expired}
use lthread.Run.Expire.{
  NoneOverdue, expire-awake, expire-Agrees, after_resume-Agrees, stop_none, stop_later, step_fault,
  step_resume, overdue_none, overdue_stop,
}
use lthread.Run.Late.{late, desched_sleep-late, IsLate, expire-late}

module _ ⦃T : RbTree⦄ where
  module _ (n : ℕ) where
    wake_joiner-late : (p : ℕ) (s : Sched) → late n (wake_joiner p s) ≤ late n s
    unfolding wake_joiner
    wake_joiner-late p s = elim (Bool-cases ((s.lt p).lt_join == 0)) [
      | inl nobody ↦ rw nobody (omega arith)
      | inr joiner ↦ rw joiner (desched_sleep-late n (s.lt p).lt_join s)
    ]

    free_if_detached-tree : (p : ℕ) (s : Sched) → (free_if_detached p s).sleep_tree ≡ s.sleep_tree
    free_if_detached-tree p s = elim (Bool-cases (has p detach s)) [
      | inl d ↦ rw d refl
      | inr k ↦ rw k refl
    ]

    prepare-tree : (p : ℕ) (s : Sched) → (prepare p s).sleep_tree ≡ s.sleep_tree
    prepare-tree p s = elim (Bool-cases (has p new s)) [ inl d ↦ rw d refl | inr k ↦ rw k refl ]

    resume_cancelled-late :
        (p : ℕ) (s : Sched) {s' : Sched} → resume_cancelled p s ≡ some s' → late n s' ≤ late n s
    unfolding resume_cancelled
    resume_cancelled-late p s h =
        ground (arith, wake_joiner-late p s, free_if_detached-tree p (wake_joiner p s))

    resume_after-late : (p : ℕ) (s : Sched) → late n (resume_after p s).1 ≤ late n s
    unfolding resume_after
    resume_after-late p s = elim (Bool-cases (has p exited s)) [
      | inl x ↦ ground (arith, wake_joiner-late p s, free_if_detached-tree p (wake_joiner p s))
      | inr nx ↦ elim (Bool-cases (has p pending_runcompute s)) [
        | inl c ↦ rw (nx, c) (omega arith)
        | inr nc ↦ rw (nx, nc) (omega arith)
      ]
    ]

    after_resume-late : (p : ℕ) (b : Bool) (s : Sched) → late n (after_resume p (b, s)) ≤ late n s
    after_resume-late p true s = omega arith
    after_resume-late p false s = omega arith

    module _ (user : ℕ → Sched → Sched)
        (calm : (q : ℕ) (t : Sched) → late n (user q t) ≤ late n t) where
      resume-late :
          (p : ℕ) (s : Sched) {b : Bool} {s' : Sched}
          → resume user p s ≡ some (b, s')
          → late n s' ≤ late n s
      resume-late p s h = elim (resume_cases user p s h) [
        | inl c ↦ resume_cancelled-late p s c.1
        | inr w ↦
            subst (λ (r : Bool × Sched). late n r.1 ≤ late n s) w.1
              (omega (
                arith,
                resume_after-late p (record (user p (prepare p s)) { current_lthread = 0 }),
                calm p (prepare p s),
                ap (λ (t : T.Tree). overdue t n) (prepare-tree p s),
              ))
      ]

  -- What holds when the loop ends: it never runs out of fuel, and when it returns, every thread
  -- that sleeps has its deadline in the future.
  abbrev pub Settled : ℕ → Outcome → Type 0
  Settled now (ran s) = SleepersAgree s × NoneOverdue now s
  Settled now fault = Unit
  Settled now out_of_fuel = ⊥

  min-IsLate :
      (now k p : ℕ) (s : Sched)
      → SleepersAgree s
      → T.min? s.sleep_tree ≡ some (k, p)
      → leb k now ≡ true
      → IsLate now p s
  min-IsLate now k p s a e due =
      let at = a.in_flagged k p (min?-find s.sleep_tree k p e) in
      (a, at.0, ground (arith, at.1, due))

  -- Let the code of the threads keep flags and sleep tree in agreement and never add a sleeper
  -- whose deadline is at most now. Then _lthread_resume_expired at time now, with more fuel than
  -- there are sleepers with such a deadline, does not run out of fuel; and if it returns without a
  -- read of freed memory, flags and tree agree and every thread that still sleeps has its deadline
  -- after now.
  pub resume_expired_total :
      (user : ℕ → Sched → Sched) (f now : ℕ) (s : Sched)
      → ((q : ℕ) (t : Sched) → SleepersAgree t → SleepersAgree (user q t))
      → ((q : ℕ) (t : Sched) → late now (user q t) ≤ late now t)
      → SleepersAgree s
      → late now s < f
      → Settled now (resume_expired user f now s)
  resume_expired_total user zero now s keeps calm a enough = absurd (omega (arith, enough))
  resume_expired_total user (suc f) now s keeps calm a enough =
      elim (Option-cases (T.min? s.sleep_tree)) [
        | inl e ↦ subst (Settled now) (sym (stop_none user f now s e)) (a, overdue_none now s a e)
        | inr ((k, p), e) ↦ elim (Bool-cases (leb k now)) [
          | inr later ↦
              subst (Settled now) (sym (stop_later user f now k p s e later))
                (a, overdue_stop now k p s a e later)
          | inl due ↦ elim (Option-cases (resume user p (expire p s))) [
            | inl f' ↦ subst (Settled now) (sym (step_fault user f now k p s e due f')) tt
            | inr ((b, t), g) ↦ subst (Settled now) (sym (step_resume user f now k p s e due g)) (
                resume_expired_total user f now (after_resume p (b, t)) keeps calm
                  (after_resume-Agrees p b t (
                    resume-Agrees user p (expire p s) keeps (expire-awake p s) (expire-Agrees p s a)
                      g))
                  (omega (
                    arith,
                    enough,
                    after_resume-late now p b t,
                    resume-late now user calm p (expire p s) g,
                    expire-late now p s (min-IsLate now k p s a e due),
                  )))
          ]
        ]
      ]
