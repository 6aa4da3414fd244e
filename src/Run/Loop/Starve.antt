-- ===== src/Run/Loop/Starve.antt =====
-- Ready threads and the poller in `lthread_run` of src/lthread_sched.c: step 4 does not poll when a
-- thread is ready.
use lthread.Base.{
  ℕ, zero, suc, ◌≡◌, refl, sym, subst, ◌∙◌, ap, Bool, true, false, Bool-cases, Option-cases, inl,
  inr, none, some, List, [], ◌∷◌, ◌==◌, leb, if◌then◌else◌, remove, arith,
}
use lthread.Rb.{RbTree}
use lthread.Sched.State.{Sched, has, cancelled, sched_time}
use lthread.Sched.Sleep.{desched_sleep}
use lthread.Sched.Event.{cancel_event}
use lthread.Sched.Event.Keeps.{desched_sleep-Kept, cancel_event-Kept}
use lthread.Run.Pass.{Grows, pop, resume_after-Grows, run_ready_fault, run_ready_round}
use lthread.Run.Expire.{stop_none, stop_later, step_fault, step_resume}
use lthread.Thread.{wake_joiner, prepare, resume_after, resume}
use lthread.Run.{
  no_threads, poll_timeout, expire, after_resume, Timespec, Outcome, ran, fault, out_of_fuel,
  resume_expired, run_ready, run_defer, sched_isdone,
}
use lthread.Poll.{Polls, dispatched}
use lthread.Run.Loop.{
  PollerEvent, last_of, then_run, finished, after_passes, after_events, passes, poll_step,
  lthread_run, RunEnd,
}

module _ ⦃T : RbTree⦄ where
  abbrev pub NoneCancelled : Sched → Type 0
  NoneCancelled s = (q : ℕ) → has q cancelled s ≡ false

  -- Nobody is cancelled, and somebody is ready.
  abbrev pub IsBusy : Sched → Type 0
  IsBusy s = NoneCancelled s × (no_threads s.ready_q ≡ false)

  -- A thread that runs cancels nobody, and leaves somebody ready, itself or another.
  abbrev pub Spins : (ℕ → Sched → Sched) → Type 0
  Spins user = (p : ℕ) (s : Sched) → NoneCancelled s → IsBusy (user p s)

  desched_sleep-cancelled :
      (p q : ℕ) (s : Sched) → has q cancelled (desched_sleep p s) ≡ has q cancelled s
  desched_sleep-cancelled p q s = let k = desched_sleep-Kept p q s in k.cancelled_bit

  expire-NoneCancelled : (p : ℕ) (s : Sched) → NoneCancelled s → NoneCancelled (expire p s)
  unfolding expire
  expire-NoneCancelled p s calm q =
      let woken = desched_sleep-Kept p q (cancel_event p s) in
      let off = cancel_event-Kept p q s in
      ground (arith, calm q, woken.cancelled_bit, off.cancelled_bit)

  after_resume-IsBusy : (p : ℕ) (r : Bool × Sched) → IsBusy r.1 → IsBusy (after_resume p r)
  after_resume-IsBusy p (true, s) (calm, some_) = ((λ q. ground (arith, calm q)), some_)
  after_resume-IsBusy p (false, s) b = b

  wake_joiner-cancelled :
      (p q : ℕ) (s : Sched) → has q cancelled (wake_joiner p s) ≡ has q cancelled s
  unfolding wake_joiner
  wake_joiner-cancelled p q s = ground (arith, desched_sleep-cancelled (s.lt p).lt_join q s)

  resume_after-cancelled :
      (p q : ℕ) (s : Sched) → has q cancelled (resume_after p s).1 ≡ has q cancelled s
  unfolding resume_after
  resume_after-cancelled p q s = ground (arith, wake_joiner-cancelled p q s)

  prepare-cancelled :
      (p q : ℕ) (s : Sched) → has q cancelled s ≡ false → has q cancelled (prepare p s) ≡ false
  prepare-cancelled p q s h = ground (arith, h)

  no_threads-Grows :
      (xs : List ℕ) {ys : List ℕ} → Grows xs ys → no_threads xs ≡ false → no_threads ys ≡ false
  no_threads-Grows [] g h = absurd (ground (arith, h))
  no_threads-Grows (x ∷ xs) {ys} (more, e) h = ground (arith, e)

  abbrev Holds : Outcome → Type 0
  Holds (ran s) = IsBusy s
  Holds fault = Unit {0}
  Holds out_of_fuel = Unit {0}

  if_both : (c : Bool) (x y : Outcome) → Holds x → Holds y → Holds (if c then x else y)
  if_both true x y hx hy = hx
  if_both false x y hx hy = hy

  then_run-Holds :
      (o : Outcome) (g : Sched → Outcome)
      → Holds o
      → ((s : Sched) → IsBusy s → Holds (g s))
      → Holds (then_run o g)
  then_run-Holds (ran s) g h k = k s h
  then_run-Holds fault g h k = tt
  then_run-Holds out_of_fuel g h k = tt

  abbrev undefer : ℕ → List ℕ → Sched → Sched
  undefer p ps s = record s { defer_q = ps; busy_l = remove p s.busy_l }

  module _ (user : ℕ → Sched → Sched) (spins : Spins user) where
    resume-IsBusy :
        (p : ℕ) (s : Sched) {r : Bool × Sched}
        → NoneCancelled s
        → resume user p s ≡ some r
        → IsBusy r.1
    unfolding resume
    resume-IsBusy p s {r} calm h =
        let back : Sched = record (user p (prepare p s)) { current_lthread = 0 } in
        let (calm', some_) = spins p (prepare p s) (λ q. prepare-cancelled p q s (calm q)) in
        let same : resume_after p back ≡ r = ground (arith, h, calm p) in
        subst (λ (x : Bool × Sched). IsBusy x.1) same
          (
            (λ q. resume_after-cancelled p q back ∙ calm' q),
            no_threads-Grows back.ready_q (resume_after-Grows p back) some_,
          )

    resume_expired-Holds : (f now : ℕ) (s : Sched) → IsBusy s → Holds (resume_expired user f now s)
    unfolding resume_expired
    resume_expired-Holds zero now s b = tt
    resume_expired-Holds (suc f) now s b = elim (Option-cases (T.min? s.sleep_tree)) [
      | inl e ↦ subst Holds (sym (stop_none user f now s e)) b
      | inr ((k, p), e) ↦ elim (Bool-cases (leb k now)) [
        | inr later ↦ subst Holds (sym (stop_later user f now k p s e later)) b
        | inl due ↦ elim (Option-cases (resume user p (expire p s))) [
          | inl g ↦ subst Holds (sym (step_fault user f now k p s e due g)) tt
          | inr (r, g) ↦ subst Holds (sym (step_resume user f now k p s e due g)) (
              resume_expired-Holds f now (after_resume p r) (
                after_resume-IsBusy p r
                  (resume-IsBusy p (expire p s) (expire-NoneCancelled p s b.0) g)))
        ]
      ]
    ]

    run_ready-Holds :
        (f last : ℕ) (s : Sched) (q : List ℕ)
        → s.ready_q ≡ q
        → IsBusy s
        → Holds (run_ready user f last s)
    unfolding run_ready
    run_ready-Holds zero last s q e b = tt
    run_ready-Holds (suc f) last s [] e b = absurd (ground (arith, e, b.1))
    run_ready-Holds (suc f) last s (p ∷ ps) e b = elim (Option-cases (resume user p (pop s))) [
      | inl g ↦ subst Holds (sym (run_ready_fault user f p last ps s e g)) tt
      | inr (r, g) ↦
          let b' = resume-IsBusy p (pop s) b.0 g in
          subst Holds (sym (run_ready_round user f p last ps s e g)) (
            if_both (p == last) (ran r.1) (run_ready user f last r.1) b'
              (run_ready-Holds f last r.1 r.1.ready_q refl b'))
    ]

    defer_done : (f : ℕ) (s : Sched) → s.defer_q ≡ [] → run_defer user (suc f) s ≡ ran s
    unfolding run_defer
    defer_done f s e = ground arith

    defer_fault :
        (f p : ℕ) (ps : List ℕ) (s : Sched)
        → s.defer_q ≡ p ∷ ps
        → resume user p (undefer p ps s) ≡ none
        → run_defer user (suc f) s ≡ fault
    unfolding run_defer
    defer_fault f p ps s e g = ground arith

    defer_round :
        (f p : ℕ) (ps : List ℕ) (s : Sched) {r : Bool × Sched}
        → s.defer_q ≡ p ∷ ps
        → resume user p (undefer p ps s) ≡ some r
        → run_defer user (suc f) s ≡ run_defer user f r.1
    unfolding run_defer
    defer_round f p ps s e g = ground arith

    run_defer-Holds :
        (f : ℕ) (s : Sched) (q : List ℕ) → s.defer_q ≡ q → IsBusy s → Holds (run_defer user f s)
    unfolding run_defer
    run_defer-Holds zero s q e b = tt
    run_defer-Holds (suc f) s [] e b = subst Holds (sym (defer_done f s e)) b
    run_defer-Holds (suc f) s (p ∷ ps) e b = elim (Option-cases (resume user p (undefer p ps s))) [
      | inl g ↦ subst Holds (sym (defer_fault f p ps s e g)) tt
      | inr (r, g) ↦
          subst Holds (sym (defer_round f p ps s e g))
            (run_defer-Holds f r.1 r.1.defer_q refl (resume-IsBusy p (undefer p ps s) b.0 g))
    ]

    passes-Holds : (f : ℕ) (s : Sched) → IsBusy s → Holds (passes user f s)
    unfolding passes
    passes-Holds f s b =
        then_run-Holds (resume_expired user f (sched_time s) s) _
          (resume_expired-Holds f (sched_time s) s b)
          λ s1 b1.
            then_run-Holds (run_ready user f (last_of s1.ready_q) s1) _
              (run_ready-Holds f (last_of s1.ready_q) s1 s1.ready_q refl b1)
              λ s2 b2. run_defer-Holds f s2 s2.defer_q refl b2

    poll_step_ready :
        (eventfd : ℕ) (poller_poll : Timespec → Polls → List PollerEvent × Polls) (w : Polls)
        → no_threads w.sched.ready_q ≡ false
        → poll_step user eventfd poller_poll w ≡ dispatched w
    unfolding poll_step poll_timeout
    poll_step_ready eventfd poller_poll w h = ground arith

    rounds_agree :
        (eventfd : ℕ) (poll poll' : Timespec → Polls → List PollerEvent × Polls) (w : Polls)
        (o : Outcome) (next next' : Polls → RunEnd)
        → Holds o
        → ((v : Polls) → IsBusy v.sched → next v ≡ next' v)
        → after_passes w o (λ v. after_events (poll_step user eventfd poll v) next)
          ≡ after_passes w o (λ v. after_events (poll_step user eventfd poll' v) next')
    rounds_agree eventfd poll poll' w (ran s) next next' b same =
        let v : Polls = record w { sched = s } in
        ap (λ d. after_events d next) (poll_step_ready eventfd poll v b.1)
        ∙ same v b
        ∙ sym (ap (λ d. after_events d next') (poll_step_ready eventfd poll' v b.1))
    rounds_agree eventfd poll poll' w fault next next' b same = refl
    rounds_agree eventfd poll poll' w out_of_fuel next next' b same = refl

    -- Let no thread be cancelled and some thread be ready, and let each thread that runs cancel
    -- nobody and leave some thread ready. Then lthread_run does the same in any number of rounds,
    -- and is in the same state after them, whatever the poller does: it never polls.
    pub lthread_run_starves :
        (eventfd f n : ℕ) (poll poll' : Timespec → Polls → List PollerEvent × Polls) (w : Polls)
        → IsBusy w.sched
        → lthread_run user eventfd poll f n w ≡ lthread_run user eventfd poll' f n w
    unfolding lthread_run
    lthread_run_starves eventfd f zero poll poll' w b = refl
    lthread_run_starves eventfd f (suc n) poll poll' w b =
        ap (λ r. if sched_isdone w.sched then finished w else r)
          (rounds_agree eventfd poll poll' w (passes user f w.sched) _ _ (passes-Holds f w.sched b)
            λ v c. lthread_run_starves eventfd f n poll poll' v c)
