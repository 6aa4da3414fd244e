-- ===== src/Sched/Event.antt =====
-- Threads that wait on a descriptor: `_lthread_sched_event`, `_lthread_desched_event` and
-- `_lthread_cancel_event` of src/lthread_sched.c, and the keys of the wait tree.
pub mod Laws
pub mod Keeps
use mathlib.Core.Option
use lthread.Base.{
  ℕ, ◌+◌, ◌-◌, ◌*◌, ◌/◌, ◌%◌, ◌^◌, Bool, true, false, Option, none, some, List, ◌∷◌, ◌==◌, ◌||◌,
  if◌then◌else◌, update,
}
use lthread.Rb.{RbTree}
use lthread.Sched.State.{
  LthreadSt, LthreadEvent, ev_read, ev_write, wait_read, wait_write, register_rd, register_wr,
  clear_rd, clear_wr, set_bit, clear_bit, Lthread, u64, Sched, modify, has, drop_bit,
}
use lthread.Sched.Sleep.{desched_sleep, sched_sleep_begin, sched_sleep_end}

abbrev pub event_code : LthreadEvent → ℕ
event_code ev_read = 0
event_code ev_write = 1

-- FD_KEY(f, e): a descriptor is not negative, and its shift leaves the low half free for the event.
abbrev pub fd_key : ℕ → LthreadEvent → ℕ
fd_key fd e = fd * 2 ^ 32 + event_code e

-- FD_ONLY
abbrev pub fd_only : ℕ → ℕ
fd_only k = k / 2 ^ 32

-- FD_EVENT, as the enumeration that it is passed as
abbrev pub fd_event : ℕ → LthreadEvent
fd_event k = if k % 2 ^ 32 == 0 then ev_read else ev_write

abbrev pub wait_bit : LthreadEvent → LthreadSt
wait_bit ev_read = wait_read
wait_bit ev_write = wait_write

module _ ⦃T : RbTree⦄ where
  unfoldable pub desched_event : ℕ → LthreadEvent → Sched → Option ℕ × Sched
  desched_event fd e s = elim (T.find (fd_key fd e) s.wait_tree) [
    | none ↦ (none, s)
    | some p ↦
        (some p, desched_sleep p (record s { wait_tree = T.remove (fd_key fd e) s.wait_tree }))
  ]

  abbrev pub clear_interest : ℕ → Sched → Sched
  clear_interest p s =
      if has p wait_read s
      then drop_bit p wait_read
          (record s { poller = clear_rd (Option.map fd_only (s.lt p).fd_wait) ∷ s.poller })
      else if has p wait_write s
      then drop_bit p wait_write
          (record s { poller = clear_wr (Option.map fd_only (s.lt p).fd_wait) ∷ s.poller })
      else s

  abbrev pub desched_key : Option ℕ → Sched → Sched
  desched_key none s = s
  desched_key (some k) s = (desched_event (fd_only k) (fd_event k) s).1

  unfoldable pub cancel_event : ℕ → Sched → Sched
  unfolding desched_event
  cancel_event p s =
      let s' = clear_interest p s in
      modify p (λ l. record l { fd_wait = none }) (desched_key (s'.lt p).fd_wait s')

  -- What `_lthread_sched_event` does before it returns: it fails an assertion, it returns at once
  -- (its timeout is -1), or it yields.
  pub data EventStep : Type 0 where
    aborted : EventStep
    returned yielded : Sched → EventStep

  abbrev pub yield_step : Option Sched → EventStep
  yield_step none = aborted
  yield_step (some s) = yielded s

  abbrev pub register : ℕ → LthreadEvent → Sched → Sched
  register fd ev_read s = record s { poller = register_rd fd ∷ s.poller }
  register fd ev_write s = record s { poller = register_wr fd ∷ s.poller }

  unfoldable pub sched_event_begin : ℕ → ℕ → LthreadEvent → ℕ → Sched → EventStep
  sched_event_begin p fd e timeout s =
      if has p wait_read s || has p wait_write s
      then aborted
      else elim (T.insert (fd_key fd e) p s.wait_tree) [
        | none ↦ aborted
        | some t ↦
            let s' =
              modify p
                (λ l. record l {
                  state = set_bit (wait_bit e) l.state;
                  fd_wait = some (fd_key fd e);
                })
                (record (register fd e s) { wait_tree = t }) in
            if timeout == u64 - 1 then returned s' else yield_step (sched_sleep_begin p timeout s')
      ]

  unfoldable pub sched_event_end : ℕ → LthreadEvent → ℕ → Sched → Sched
  sched_event_end p e timeout s =
      modify p (λ l. record l { fd_wait = none; state = clear_bit (wait_bit e) l.state })
        (sched_sleep_end p timeout s)
