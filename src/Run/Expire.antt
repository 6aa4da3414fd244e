-- ===== src/Run/Expire.antt =====
-- One round of `_lthread_resume_expired` of src/lthread_sched.c: how it goes on, and what holds
-- when it stops.
use lthread.Base.{ℕ, suc, ◌<◌, ◌≡◌, refl, true, false, Bool, none, some, arith, leb}
use lthread.Rb.{RbTree}
use lthread.Rb.Tree.{min?-le, min?_none}
use lthread.Sched.State.{sleeping, Sched, has}
use lthread.Sched.Sleep.{desched_sleep}
use lthread.Sched.Event.{cancel_event}
use lthread.Sched.Sleep.Inv.{SleepersAgree, update-Agrees, desched_sleep-Agrees}
use lthread.Sched.Sleep.Wake.{desched_sleep-awake}
use lthread.Sched.Event.Keeps.{cancel_event-Agrees}
use lthread.Thread.{resume}
use lthread.Run.{ran, fault, expire, after_resume, resume_expired}

module _ ⦃T : RbTree⦄ where
  pub expire-Agrees : (p : ℕ) (s : Sched) → SleepersAgree s → SleepersAgree (expire p s)
  unfolding expire
  expire-Agrees p s a =
      let out = desched_sleep p (cancel_event p s) in
      update-Agrees out.lt out.sleep_tree p _ refl refl
        (desched_sleep-Agrees p (cancel_event p s) (cancel_event-Agrees p s a))

  pub expire-awake : (p : ℕ) (s : Sched) → has p sleeping (expire p s) ≡ false
  unfolding expire
  expire-awake p s = ground (arith, desched_sleep-awake p (cancel_event p s))

  pub after_resume-Agrees :
      (p : ℕ) (b : Bool) (s : Sched) → SleepersAgree s → SleepersAgree (after_resume p (b, s))
  after_resume-Agrees p true s a = update-Agrees s.lt s.sleep_tree p _ refl refl a
  after_resume-Agrees p false s a = a

  abbrev pub NoneOverdue : ℕ → Sched → Type 0
  NoneOverdue now s = (q : ℕ) → has q sleeping s ≡ true → now < (s.lt q).sleep_usecs

  pub stop_none :
      (user : ℕ → Sched → Sched) (f now : ℕ) (s : Sched)
      → T.min? s.sleep_tree ≡ none
      → resume_expired user (suc f) now s ≡ ran s
  unfolding resume_expired
  stop_none user f now s e = ground arith

  pub stop_later :
      (user : ℕ → Sched → Sched) (f now k p : ℕ) (s : Sched)
      → T.min? s.sleep_tree ≡ some (k, p)
      → leb k now ≡ false
      → resume_expired user (suc f) now s ≡ ran s
  unfolding resume_expired
  stop_later user f now k p s e later = ground arith

  pub step_fault :
      (user : ℕ → Sched → Sched) (f now k p : ℕ) (s : Sched)
      → T.min? s.sleep_tree ≡ some (k, p)
      → leb k now ≡ true
      → resume user p (expire p s) ≡ none
      → resume_expired user (suc f) now s ≡ fault
  unfolding resume_expired
  step_fault user f now k p s e due g = ground arith

  pub step_resume :
      (user : ℕ → Sched → Sched) (f now k p : ℕ) (s : Sched) {r : Bool × Sched}
      → T.min? s.sleep_tree ≡ some (k, p)
      → leb k now ≡ true
      → resume user p (expire p s) ≡ some r
      → resume_expired user (suc f) now s ≡ resume_expired user f now (after_resume p r)
  unfolding resume_expired
  step_resume user f now k p s e due g = ground arith

  pub overdue_stop :
      (now k p : ℕ) (s : Sched)
      → SleepersAgree s
      → T.min? s.sleep_tree ≡ some (k, p)
      → leb k now ≡ false
      → NoneOverdue now s
  overdue_stop now k p s a e later q h =
      ground (arith, min?-le s.sleep_tree k p (s.lt q).sleep_usecs q a.sorted e (a.flagged_in q h))

  pub overdue_none :
      (now : ℕ) (s : Sched) → SleepersAgree s → T.min? s.sleep_tree ≡ none → NoneOverdue now s
  overdue_none now s a e q h =
      ground (arith, a.flagged_in q h, min?_none s.sleep_tree e (s.lt q).sleep_usecs)
