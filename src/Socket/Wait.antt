-- ===== src/Socket/Wait.antt =====
-- The two places where a socket call of src/lthread_socket.c may yield, and `LTHREAD_WAIT`.
use lthread.Base.{ℕ, Option, none, some, if◌then◌else◌}
use lthread.Rb.{RbTree}
use lthread.Sched.State.{fdeof, expired, LthreadEvent, Sched, has}
use lthread.Sched.Event.{EventStep, aborted, returned, yielded, sched_event_begin, sched_event_end}
use lthread.Thread.{renice}

-- the values of errno that the socket calls tell apart; EWOULDBLOCK is EAGAIN
pub data Errno : Type 0 where
  eagain enfile emfile econnaborted einprogress ealready other : Errno

-- what a system call returns
pub data Answer : Type 0 where
  returned_n : ℕ → Answer
  error : Errno → Answer

-- What a socket call does: it returns a count or a descriptor, -1 or -2, it fails an assertion,
-- or it has used up its fuel.
pub data Result : Type 0 where
  count : ℕ → Result
  minus_one minus_two assert_failed no_fuel : Result

module _ ⦃T : RbTree⦄ {K : Type 0} (others : Sched → K → Sched × K) (p : ℕ) where
  -- `_lthread_renice`; `others` is what happens between a yield and the resumption.
  unfoldable pub renice_yield : Sched → K → Sched × K
  renice_yield s k =
      let (yields, s') = renice p s in let out = others s' k in if yields then out else (s', k)

  abbrev pub after_event : LthreadEvent → ℕ → K → EventStep → Option (Sched × K)
  after_event e timeout k aborted = none
  after_event e timeout k (returned s) = some (s, k)
  after_event e timeout k (yielded s) =
      let (s', k') = others s k in some (sched_event_end p e timeout s', k')

  -- `_lthread_sched_event` as a whole; none where its assertion fails.
  unfoldable pub sched_event : ℕ → LthreadEvent → ℕ → Sched → K → Option (Sched × K)
  sched_event fd e timeout s k = after_event e timeout k (sched_event_begin p fd e timeout s)

  -- LTHREAD_WAIT
  unfoldable pub wait_fd : ℕ → LthreadEvent → ℕ → Sched → K → Result × Sched × K
  unfolding sched_event
  wait_fd fd e timeout s k = elim (sched_event fd e timeout s k) [
    | none ↦ (assert_failed, s, k)
    | some (s', k') ↦
        if has p fdeof s'
        then (minus_one, s', k')
        else if has p expired s'
        then (minus_two, s', k')
        else (count 0, s', k')
  ]
