-- ===== src/Run.antt =====
-- The scheduler's loop in src/lthread_sched.c: `_lthread_resume_expired`, the first three steps of
-- `lthread_run`, the timeout that `_lthread_poll` computes, and `_lthread_sched_isdone`. What a
-- thread does from its resumption to its next yield is the parameter `user` of `Thread.resume`.
pub mod Expire
pub mod Late
pub mod Pass
pub mod Loop
pub mod Total
use lthread.Base.{
  ℕ, zero, suc, ◌+◌, ◌*◌, ◌/◌, ◌%◌, Bool, true, false, Option, none, some, List, [], ◌∷◌, ◌==◌,
  ◌&&◌, leb, ltb, not, if◌then◌else◌, remove,
}
use lthread.Rb.{RbTree, is_empty}
use lthread.Sched.State.{expired, Sched, raise_bit, drop_bit}
use lthread.Sched.Sleep.{desched_sleep, min_timeout}
use lthread.Sched.Event.{cancel_event}
use lthread.Thread.{resume}

pub record Timespec : Type 0 where
  pub tv_sec : ℕ
  pub tv_nsec : ℕ

-- how `_lthread_poll` splits microseconds
unfoldable pub timespec_of : ℕ → Timespec
timespec_of usecs = record {
  tv_sec = usecs / 1000000;
  tv_nsec = if usecs / 1000000 == 0 then usecs * 1000 else usecs % 1000 * 1000000;
}

abbrev pub no_threads : List ℕ → Bool
no_threads [] = true
no_threads (p ∷ ps) = false

module _ ⦃T : RbTree⦄ where
  -- what `_lthread_poll` passes to the poller; none if it does not poll
  unfoldable pub poll_timeout : Sched → Option Timespec
  unfolding timespec_of
  poll_timeout s =
      if not (min_timeout s == 0) && no_threads s.ready_q
      then some (timespec_of (min_timeout s))
      else none

  unfoldable pub sched_isdone : Sched → Bool
  sched_isdone s =
      is_empty (T.entries s.wait_tree)
      && no_threads s.busy_l
      && is_empty (T.entries s.sleep_tree)
      && no_threads s.ready_q

  -- A loop of the scheduler ends, meets a read of freed memory, or has used up its fuel.
  pub data Outcome : Type 0 where
    ran : Sched → Outcome
    fault : Outcome
    out_of_fuel : Outcome

  -- what `_lthread_resume_expired` does to a thread before it resumes it
  unfoldable pub expire : ℕ → Sched → Sched
  expire p s = raise_bit p expired (desched_sleep p (cancel_event p s))

  -- The flag stays if the thread has exited or was cancelled.
  abbrev pub after_resume : ℕ → Bool × Sched → Sched
  after_resume p (ok, s) = if ok then drop_bit p expired s else s

  module _ (user : ℕ → Sched → Sched) where
    -- `_lthread_resume_expired` at the scheduler time `now`
    unfoldable pub resume_expired : ℕ → ℕ → Sched → Outcome
    resume_expired zero now s = out_of_fuel
    resume_expired (suc f) now s = elim (T.min? s.sleep_tree) [
      | none ↦ ran s
      | some (k, p) ↦
          let next = elim (resume user p (expire p s)) as (λ _. Outcome) [
            | none ↦ fault
            | some r ↦ resume_expired f now (after_resume p r)
          ] in
          if leb k now then next else ran s
    ]

    -- Step 2 of `lthread_run`: threads are resumed from the front of the ready queue up to `last`.
    unfoldable pub run_ready : ℕ → ℕ → Sched → Outcome
    run_ready zero last s = out_of_fuel
    run_ready (suc f) last s = elim s.ready_q [
      | [] ↦ ran s
      | p ∷ ps ↦ elim (resume user p (record s { ready_q = ps })) as (λ _. Outcome) [
        | none ↦ fault
        | some r ↦ let rest = run_ready f last r.1 in if p == last then ran r.1 else rest
      ]
    ]

    -- Step 3: threads that come back from a compute scheduler or an I/O worker.
    unfoldable pub run_defer : ℕ → Sched → Outcome
    run_defer zero s = out_of_fuel
    run_defer (suc f) s = elim s.defer_q [
      | [] ↦ ran s
      | p ∷ ps ↦
          elim (resume user p (record s { defer_q = ps; busy_l = remove p s.busy_l }))
            as (λ _. Outcome) [ none ↦ fault | some r ↦ run_defer f r.1 ]
    ]
