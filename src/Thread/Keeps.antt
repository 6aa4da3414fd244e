-- ===== src/Thread/Keeps.antt =====
-- Flags and sleep tree through the functions of a thread's life in src/lthread.c.
use lthread.Base.{
  ℕ, ◌≡◌, refl, subst, ◌⊎◌, true, false, Bool, Bool-cases, Option-cases, inl, inr, some, arith,
  ◌==◌,
}
use lthread.Rb.{RbTree}
use lthread.Sched.State.{
  new, exited, cancelled, detach, pending_runcompute, sleeping, Sched, has, raise_bit, set_bit,
}
use lthread.Sched.Sleep.{desched_sleep}
use lthread.Sched.Sleep.Inv.{
  SleepersAgree, Agrees-of_eq, update-Agrees, update_awake-Agrees, desched_sleep-Agrees,
}
use lthread.Sched.Event.Keeps.{cancel_event-Agrees}
use lthread.Thread.{
  wake_joiner, free_if_detached, resume_cancelled, resume_after, prepare, resume, lthread_cancel,
}

module _ ⦃T : RbTree⦄ where
  wake_joiner-Agrees : (p : ℕ) (s : Sched) → SleepersAgree s → SleepersAgree (wake_joiner p s)
  unfolding wake_joiner
  wake_joiner-Agrees p s a = elim (Bool-cases ((s.lt p).lt_join == 0)) [
    | inl nobody ↦ rw nobody a
    | inr joiner ↦
        rw joiner (update-Agrees _ _ p _ refl refl (desched_sleep-Agrees (s.lt p).lt_join s a))
  ]

  free_if_detached-Agrees :
      (p : ℕ) (s : Sched) → SleepersAgree s → SleepersAgree (free_if_detached p s)
  free_if_detached-Agrees p s a = elim (Bool-cases (has p detach s)) [
    | inl d ↦ rw d a
    | inr k ↦ rw k a
  ]

  resume_cancelled-Agrees :
      (p : ℕ) (s : Sched) {s' : Sched}
      → resume_cancelled p s ≡ some s'
      → SleepersAgree s
      → SleepersAgree s'
  unfolding resume_cancelled
  resume_cancelled-Agrees p s {s'} h a =
      let t = free_if_detached p (wake_joiner p s) in
      Agrees-of_eq (ground arith) (ground arith)
        (free_if_detached-Agrees p (wake_joiner p s) (wake_joiner-Agrees p s a))

  resume_after-Agrees : (p : ℕ) (s : Sched) → SleepersAgree s → SleepersAgree (resume_after p s).1
  unfolding resume_after
  resume_after-Agrees p s a = elim (Bool-cases (has p exited s)) [
    | inl x ↦ rw x (free_if_detached-Agrees p (wake_joiner p s) (wake_joiner-Agrees p s a))
    | inr nx ↦ elim (Bool-cases (has p pending_runcompute s)) [
      | inl c ↦ rw (nx, c) (update-Agrees _ _ p _ refl refl (update-Agrees _ _ p _ refl refl a))
      | inr nc ↦ rw (nx, nc) a
    ]
  ]

  prepare-Agrees :
      (p : ℕ) (s : Sched) → has p sleeping s ≡ false → SleepersAgree s → SleepersAgree (prepare p s)
  prepare-Agrees p s w a = elim (Bool-cases (has p new s)) [
    | inl n ↦ rw n (update_awake-Agrees s.lt s.sleep_tree p _ refl w a)
    | inr o ↦ rw o a
  ]

  -- A thread is resumed by one of two ways.
  pub resume_cases :
      (user : ℕ → Sched → Sched) (p : ℕ) (s : Sched) {b : Bool} {s' : Sched}
      → resume user p s ≡ some (b, s')
      → ((has p cancelled s ≡ true) × (resume_cancelled p s ≡ some s') × (b ≡ false))
        ⊎ ((has p cancelled s ≡ false)
            × (resume_after p (record (user p (prepare p s)) { current_lthread = 0 }) ≡ (b, s')))
  unfolding resume
  resume_cases user p s h = elim (Bool-cases (has p cancelled s)) [
    | inl c ↦ elim (Option-cases (resume_cancelled p s)) [
      | inl f ↦ ground arith
      | inr (t, f) ↦ inl (ground arith)
    ]
    | inr n ↦ inr (ground arith)
  ]

  pub resume-Agrees :
      (user : ℕ → Sched → Sched) (p : ℕ) (s : Sched) {b : Bool} {s' : Sched}
      → ((q : ℕ) (t : Sched) → SleepersAgree t → SleepersAgree (user q t))
      → has p sleeping s ≡ false
      → SleepersAgree s
      → resume user p s ≡ some (b, s')
      → SleepersAgree s'
  resume-Agrees user p s keeps w a h = elim (resume_cases user p s h) [
    | inl c ↦ resume_cancelled-Agrees p s c.1 a
    | inr n ↦
        subst (λ (r : Bool × Sched). SleepersAgree r.1) n.1
          (resume_after-Agrees p _ (keeps p (prepare p s) (prepare-Agrees p s w a)))
  ]

  pub lthread_cancel-Agrees :
      (p : ℕ) (s : Sched) → SleepersAgree s → SleepersAgree (lthread_cancel p s)
  unfolding lthread_cancel
  lthread_cancel-Agrees p s a =
      let marked = raise_bit p cancelled s in
      let t = cancel_event-Agrees p (desched_sleep p marked) (
        desched_sleep-Agrees p marked (
          update-Agrees s.lt s.sleep_tree p
            (record (s.lt p) { state = set_bit cancelled (s.lt p).state }) refl refl a)) in
      elim (Bool-cases (p == 0)) [
        | inl null ↦ rw null a
        | inr there ↦ Agrees-of_eq (ground arith) (ground arith) t
      ]
