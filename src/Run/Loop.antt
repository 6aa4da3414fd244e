-- ===== src/Run/Loop.antt =====
-- The loop of `lthread_run` in src/lthread_sched.c as a whole, with the five steps in their order.
pub mod Starve
use lthread.Base.{
  ℕ, zero, suc, Bool, true, false, Option, none, some, List, [], ◌∷◌, ◌==◌, if◌then◌else◌,
}
use lthread.Rb.{RbTree}
use lthread.Sched.State.{Sched, sched_time}
use lthread.Run.{
  Timespec, poll_timeout, sched_isdone, Outcome, ran, fault, out_of_fuel, resume_expired, run_ready,
  run_defer,
}
use lthread.Poll.{Polls, Dispatch, read_freed, unexpected, dispatched, dispatch_event}

-- TAILQ_LAST: NULL of an empty queue
abbrev pub last_of : List ℕ → ℕ
last_of [] = 0
last_of (p ∷ []) = p
last_of (p ∷ q ∷ qs) = last_of (q ∷ qs)

-- an event of the poller: its descriptor, and if it is an end of file
pub record PollerEvent : Type 0 where
  pub event_fd : ℕ
  pub is_eof : Bool

module _ ⦃T : RbTree⦄ where
  abbrev pub then_run : Outcome → (Sched → Outcome) → Outcome
  then_run (ran s) f = f s
  then_run fault f = fault
  then_run out_of_fuel f = out_of_fuel

  abbrev pub then_dispatch : Dispatch → (Polls → Dispatch) → Dispatch
  then_dispatch read_freed f = read_freed
  then_dispatch unexpected f = unexpected
  then_dispatch (dispatched w) f = f w

  -- How `lthread_run` ends, or where it is after the rounds it was given; `run_no_fuel` is a loop within
  -- a round that has used up its fuel.
  pub data RunEnd : Type 0 where
    finished still_running : Polls → RunEnd
    run_freed run_unexpected run_no_fuel : RunEnd

  abbrev pub after_events : Dispatch → (Polls → RunEnd) → RunEnd
  after_events read_freed f = run_freed
  after_events unexpected f = run_unexpected
  after_events (dispatched w) f = f w

  abbrev pub after_passes : Polls → Outcome → (Polls → RunEnd) → RunEnd
  after_passes w (ran s) f = f (record w { sched = s })
  after_passes w fault f = run_freed
  after_passes w out_of_fuel f = run_no_fuel

  -- Steps 1 to 3; each loop gets the fuel `f`, and `user` is as in `Thread.resume`.
  unfoldable pub passes : (ℕ → Sched → Sched) → ℕ → Sched → Outcome
  unfolding resume_expired run_ready run_defer
  passes user f s =
      then_run (resume_expired user f (sched_time s) s)
        λ s1. then_run (run_ready user f (last_of s1.ready_q) s1) λ s2. run_defer user f s2

  -- The descriptor of the eventfd, and what happens in a call of the poller: events come, time
  -- passes, and other pthreads give threads back. Of lthread_poll, only what happens after its yield
  -- is in the loop: `user` cannot start one, since it sees no `pollfds`.
  module _ (user : ℕ → Sched → Sched) (eventfd : ℕ)
      (poller_poll : Timespec → Polls → List PollerEvent × Polls) where
    abbrev pub handle_event : PollerEvent → Polls → Dispatch
    handle_event e w =
        let served = dispatch_event user e.event_fd e.is_eof w in
        if e.event_fd == eventfd then dispatched w else served

    -- step 5, from the last event to the first
    unfoldable pub handle_events : List PollerEvent → Polls → Dispatch
    handle_events [] w = dispatched w
    handle_events (e ∷ es) w = then_dispatch (handle_events es w) (handle_event e)

    abbrev pub handle_polled : List PollerEvent × Polls → Dispatch
    handle_polled (es, w) = handle_events es w

    -- steps 4 and 5
    unfoldable pub poll_step : Polls → Dispatch
    unfolding poll_timeout handle_events
    poll_step w = elim (poll_timeout w.sched) [
      | none ↦ dispatched w
      | some t ↦ handle_polled (poller_poll t w)
    ]

    -- the loop, for `n` rounds at most
    unfoldable pub lthread_run : ℕ → ℕ → Polls → RunEnd
    unfolding sched_isdone passes poll_step
    lthread_run f zero w = still_running w
    lthread_run f (suc n) w =
        let round =
          after_passes w (passes user f w.sched)
            λ v. after_events (poll_step v) (lthread_run f n) in
        if sched_isdone w.sched then finished w else round
