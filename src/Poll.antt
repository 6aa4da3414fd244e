-- ===== src/Poll.antt =====
-- poll(2) over threads: `lthread_poll` of src/lthread_socket.c, `_lthread_poller_set_fd_ready` of
-- src/lthread_poller.c, and how step 5 of `lthread_run` in src/lthread_sched.c hands an event over.
pub mod Laws
use lthread.Base.{
  ℕ, zero, suc, ◌+◌, ◌-◌, Bool, true, false, Option, none, some, List, [], ◌∷◌, ◌==◌, ◌||◌,
  if◌then◌else◌, update, set,
}
use lthread.Rb.{RbTree}
use lthread.Sched.State.{
  wait_read, wait_write, wait_multi, expired, fdeof, LthreadEvent, ev_read, ev_write, set_bit,
  clear_bit, u64, register_rd, clear_rd, clear_wr, Sched, modify, has, raise_bit, drop_bit,
  make_ready,
}
use lthread.Sched.Sleep.{sched_sleep_begin, sched_sleep_end}
use lthread.Sched.Event.{EventStep, aborted, returned, yielded, desched_event, sched_event_begin}
use lthread.Thread.{resume}

-- `struct pollfd`, with the bits of `events` that the code reads and writes
pub record Pollfd : Type 0 where
  pub fd : ℕ
  pub pollin : Bool
  pub pollout : Bool
  pub pollhup : Bool

module _ ⦃T : RbTree⦄ where
  -- the scheduler, with the fields `pollfds` and `ready_fds` of each thread
  pub record Polls : Type 0 where
    pub sched : Sched
    pub pollfds : ℕ → List Pollfd
    pub ready_fds : ℕ → ℕ

  -- What `lthread_poll` does before it returns: an assertion fails, or it goes to sleep.
  pub data PollStep : Type 0 where
    poll_aborted : PollStep
    asleep : Polls → PollStep

  abbrev pub no_yield : EventStep → Option Sched
  no_yield aborted = none
  no_yield (returned s) = some s
  no_yield (yielded s) = some s

  -- The registration of one descriptor, with a timeout of -1, which does not yield.
  abbrev pub enrol : ℕ → Pollfd → Sched → Option Sched
  enrol p e s =
      if e.pollin
      then no_yield (sched_event_begin p e.fd ev_read (u64 - 1) s)
      else if e.pollout
      then no_yield (sched_event_begin p e.fd ev_write (u64 - 1) s)
      else none

  -- the loop of `lthread_poll`
  unfoldable pub enrol_all : ℕ → List Pollfd → Sched → Option Sched
  enrol_all p [] s = some s
  enrol_all p (e ∷ es) s = elim (enrol p e s) [ none ↦ none | some s' ↦ enrol_all p es s' ]

  abbrev pub sleep_step : ℕ → List Pollfd → Polls → Option Sched → PollStep
  sleep_step p fds w none = poll_aborted
  sleep_step p fds w (some s) =
      asleep
        (record { sched = s; pollfds = update w.pollfds p fds; ready_fds = update w.ready_fds p 0 })

  abbrev pub multi : ℕ → Sched → Sched
  multi p = modify p λ l. record l {
    fd_wait = none;
    state = set_bit wait_multi (clear_bit wait_write (clear_bit wait_read l.state));
  }

  -- `lthread_poll` with a timeout that is not 0, up to its yield
  unfoldable pub poll_begin : ℕ → List Pollfd → ℕ → Polls → PollStep
  unfolding enrol_all
  poll_begin p fds timeout w = elim (enrol_all p fds w.sched) [
    | none ↦ poll_aborted
    | some s ↦ sleep_step p fds w (sched_sleep_begin p timeout (multi p s))
  ]

  -- and after it: the number of descriptors that are ready
  unfoldable pub poll_end : ℕ → ℕ → Polls → ℕ × Polls
  poll_end p timeout w =
      let s = drop_bit p wait_multi (sched_sleep_end p timeout w.sched) in
      let w' = record w { sched = s; pollfds = update w.pollfds p [] } in
      (if has p expired s then 0 else w.ready_fds p, w')

  -- The loop of `_lthread_poller_set_fd_ready`, which takes back all registrations.
  unfoldable pub withdraw : List Pollfd → Sched → Sched
  unfolding desched_event
  withdraw [] s = s
  withdraw (e ∷ es) s = withdraw es (
      if e.pollin
      then (desched_event e.fd ev_read (record s { poller = clear_rd (some e.fd) ∷ s.poller })).1
      else if e.pollout
      then (desched_event e.fd ev_write (record s { poller = clear_wr (some e.fd) ∷ s.poller })).1
      else s)

  abbrev pub ready_entry : ℕ → LthreadEvent → Bool → Pollfd
  ready_entry fd ev_read eof = record { fd = fd; pollin = true; pollout = false; pollhup = eof }
  ready_entry fd ev_write eof = record { fd = fd; pollin = false; pollout = true; pollhup = eof }

  -- `_lthread_poller_set_fd_ready`
  unfoldable pub set_fd_ready : ℕ → ℕ → LthreadEvent → Bool → Polls → Polls
  unfolding withdraw
  set_fd_ready p fd e eof w = record w {
    sched = if w.ready_fds p == 0 then withdraw (w.pollfds p) w.sched else w.sched;
    pollfds = update w.pollfds p (set (w.pollfds p) (w.ready_fds p) (ready_entry fd e eof));
    ready_fds = update w.ready_fds p (w.ready_fds p + 1);
  }

  abbrev pub queue_poller : ℕ → Polls → Polls
  queue_poller p w = if w.ready_fds p == 0 then record w { sched = make_ready p w.sched } else w

  abbrev pub resumed : Polls → Option (Bool × Sched) → Option Polls
  resumed w none = none
  resumed w (some (b, s)) = some (record w { sched = s })

  -- HANDLE_EV: whether a thread waited for the event, and the state after it was served; none if
  -- freed memory is read.
  unfoldable pub handle_ev :
      (ℕ → Sched → Sched) → ℕ → LthreadEvent → Bool → Polls → Bool × Option Polls
  unfolding desched_event resume set_fd_ready
  handle_ev user fd e eof w =
      let (found, s) = desched_event fd e w.sched in
      elim found as (λ _. Bool × Option Polls) [
        | none ↦ (false, some (record w { sched = s }))
        | some p ↦ (
          true,
          if has p wait_multi s
              then some (set_fd_ready p fd e eof (queue_poller p (record w { sched = s })))
              else resumed w (resume user p (if eof then raise_bit p fdeof s else s)),
        )
      ]

  -- What step 5 does with one event of the poller: it reads freed memory, its assertion that
  -- somebody waited fails, or it goes on.
  pub data Dispatch : Type 0 where
    read_freed unexpected : Dispatch
    dispatched : Polls → Dispatch

  abbrev pub conclude_event : Bool → Bool × Option Polls → Dispatch
  conclude_event read (write, none) = read_freed
  conclude_event read (write, some w) = if write || read then dispatched w else unexpected

  abbrev pub then_write : (ℕ → Sched → Sched) → ℕ → Bool → Bool × Option Polls → Dispatch
  then_write user fd eof (read, none) = read_freed
  then_write user fd eof (read, some w) = conclude_event read (handle_ev user fd ev_write eof w)

  unfoldable pub dispatch_event : (ℕ → Sched → Sched) → ℕ → Bool → Polls → Dispatch
  unfolding handle_ev
  dispatch_event user fd eof w = then_write user fd eof (handle_ev user fd ev_read eof w)
