-- ===== src/Thread.antt =====
-- The life of a thread: src/lthread.c from `_exec` to `lthread_id`, without stacks and machine
-- contexts.
pub mod Laws
pub mod Keeps
use lthread.Base.{
  ℕ, ◌+◌, Bool, true, false, Option, none, some, ◌∷◌, ◌==◌, ◌&&◌, ◌||◌, ltb, if◌then◌else◌, remove,
  update,
}
use lthread.Rb.{RbTree}
use lthread.Sched.State.{
  new, ready, exited, busy, sleeping, expired, detach, cancelled, pending_runcompute, runcompute,
  wait_io_read, wait_io_write, set_bit, clear_bit, no_flags, Lthread, zeroed, Sched, modify, has,
  raise_bit, drop_bit, make_ready,
}
use lthread.Sched.Sleep.{
  desched_sleep, sched_sleep_begin, sched_busy_sleep_begin, sched_busy_sleep_end, yield_begin,
}
use lthread.Sched.Event.{cancel_event}

-- what `lthread_join` returns
pub data JoinRet : Type 0 where
  joined exited_before timed_out was_cancelled : JoinRet

module _ ⦃T : RbTree⦄ where
  abbrev pub born : ℕ → ℕ → Sched → Lthread
  born func arg s = record zeroed {
    state = set_bit new no_flags;
    id = s.spawned_lthreads;
    func = func;
    fd_wait = none;
    arg = arg;
    birth = s.clock;
  }

  -- `lthread_create` where the scheduler exists: `block` is what calloc returns for the thread, and
  -- `stack` tells whether its stack can be allocated. The result is `*new_lt`, none on an error.
  unfoldable pub lthread_create : Option ℕ → Bool → ℕ → ℕ → Sched → Option ℕ × Sched
  lthread_create none stack func arg s = (none, s)
  lthread_create (some p) false func arg s = (none, s)
  lthread_create (some p) true func arg s = (
    some p,
    make_ready p (record s {
      lt = update s.lt p (born func arg s);
      freed = update s.freed p false;
      spawned_lthreads = s.spawned_lthreads + 1;
    }),
  )

  -- `_lthread_free`
  abbrev pub lthread_free : ℕ → Sched → Sched
  lthread_free p s = record s { freed = update s.freed p true }

  -- The thread that joins on `p` is scheduled to run.
  unfoldable pub wake_joiner : ℕ → Sched → Sched
  wake_joiner p s =
      let j = (s.lt p).lt_join in
      if j == 0
      then s
      else modify p (λ l. record l { lt_join = 0 }) (make_ready j (desched_sleep j s))

  -- A thread joins on `p` and its memory was freed: waking it reads and writes freed memory.
  abbrev pub joiner_gone : ℕ → Sched → Bool
  joiner_gone p s = let j = (s.lt p).lt_join in if j == 0 then false else s.freed j

  abbrev pub free_if_detached : ℕ → Sched → Sched
  free_if_detached p s = if has p detach s then lthread_free p s else s

  -- A read of a thread's state: none if its memory was freed.
  abbrev pub load_bit : ℕ → Sched → Option Bool
  load_bit p s = if s.freed p then none else some (has p busy s)

  -- `_lthread_resume` of a cancelled thread, which is never resumed (-1). It wakes the joiner, and it
  -- reads the state once more after it may have freed the thread; none stands for a read of freed
  -- memory.
  unfoldable pub resume_cancelled : ℕ → Sched → Option Sched
  unfolding wake_joiner
  resume_cancelled p s =
      let s' = free_if_detached p (wake_joiner p s) in
      let woken = elim (load_bit p s') as (λ _. Option Sched) [
        | none ↦ none
        | some b ↦ some (if b then record s' { busy_l = remove p s'.busy_l } else s')
      ] in
      if joiner_gone p s then none else woken

  -- `_lthread_init`, without the stack
  abbrev pub lthread_init : ℕ → Sched → Sched
  lthread_init p = modify p λ l. record l { state = set_bit ready no_flags }

  -- `_lthread_compute_add`: the thread is handed over to its compute scheduler.
  abbrev pub compute_add : ℕ → Sched → Sched
  compute_add p s =
      raise_bit p runcompute (drop_bit p pending_runcompute (record s { busy_l = p ∷ s.busy_l }))

  -- `_lthread_resume` once the thread has switched back: true is 0, and false is -1.
  unfoldable pub resume_after : ℕ → Sched → Bool × Sched
  unfolding wake_joiner
  resume_after p s =
      if has p exited s
      then (false, free_if_detached p (wake_joiner p s))
      else if has p pending_runcompute s
      then (true, compute_add p s)
      else (true, s)

  abbrev pub prepare : ℕ → Sched → Sched
  prepare p s =
      let s' = if has p new s then lthread_init p s else s in record s' { current_lthread = p }

  -- The thread has exited or goes on, and what `_lthread_resume` reads then was freed: the thread, or
  -- its joiner.
  abbrev pub lost : ℕ → Sched → Bool
  lost p s = s.freed p || (has p exited s && joiner_gone p s)

  -- `user p` is what happens from the switch to the thread until it switches back. None stands for a
  -- read of freed memory.
  unfoldable pub resume : (ℕ → Sched → Sched) → ℕ → Sched → Option (Bool × Sched)
  unfolding resume_cancelled resume_after
  resume user p s =
      let back = record (user p (prepare p s)) { current_lthread = 0 } in
      if s.freed p
      then none
      else if has p cancelled s
      then elim (resume_cancelled p s) [ none ↦ none | some s' ↦ some (false, s') ]
      else if lost p back
      then none
      else some (resume_after p back)

  -- A cancelled thread that another pthread works for is left to that pthread.
  abbrev pub works_elsewhere : ℕ → Sched → Bool
  works_elsewhere p s =
      has p pending_runcompute s
      || has p wait_io_read s
      || has p wait_io_write s
      || has p runcompute s

  unfoldable pub lthread_cancel : ℕ → Sched → Sched
  lthread_cancel p s =
      if p == 0
      then s
      else let s' = cancel_event p (desched_sleep p (raise_bit p cancelled s)) in
        if works_elsewhere p s' then s' else make_ready p s'

  unfoldable pub lthread_wakeup : ℕ → Sched → Sched
  lthread_wakeup p s = if has p sleeping s then desched_sleep p (make_ready p s) else s

  -- `lthread_sleep` up to its yield
  unfoldable pub lthread_sleep_begin : ℕ → Sched → Option Sched
  lthread_sleep_begin msecs s =
      let p = s.current_lthread in
      if msecs == 0 then some (yield_begin p (make_ready p s)) else sched_sleep_begin p msecs s

  -- `_lthread_renice`: whether it yields, and the state then
  unfoldable pub renice : ℕ → Sched → Bool × Sched
  renice p s =
      let s' = modify p (λ l. record l { ops = l.ops + 1 }) s in
      if ltb (s'.lt p).ops 5 then (false, s') else (true, yield_begin p (make_ready p s'))

  -- `lthread_exit` up to its yield
  unfoldable pub lthread_exit : ℕ → Sched → Sched
  lthread_exit value s =
      let p = s.current_lthread in
      let j = (s.lt p).lt_join in
      let cell = (s.lt j).lt_exit_ptr in
      let s' =
        if j == 0 || cell == 0 || value == 0
        then s
        else record s { cells = update s.cells cell value } in
      yield_begin p (raise_bit p exited s')

  -- `lthread_join` up to its yield, or its early return
  pub data JoinStep : Type 0 where
    finished : JoinRet → Sched → JoinStep
    waits : Option Sched → JoinStep

  unfoldable pub lthread_join_begin : ℕ → ℕ → ℕ → Sched → JoinStep
  lthread_join_begin p ptr timeout s =
      let me = s.current_lthread in
      let s' =
        modify me (λ l. record l { lt_exit_ptr = ptr })
          (modify p (λ l. record l { lt_join = me }) s) in
      if has p exited s'
      then finished exited_before (lthread_free p s')
      else waits (sched_busy_sleep_begin me timeout s')

  unfoldable pub lthread_join_end : ℕ → ℕ → ℕ → Sched → JoinRet × Sched
  lthread_join_end me p timeout s =
      let s' = sched_busy_sleep_end me timeout s in
      if has me expired s'
      then (timed_out, modify p (λ l. record l { lt_join = 0 }) s')
      else (if has p cancelled s' then was_cancelled else joined, lthread_free p s')

  unfoldable pub lthread_detach : Sched → Sched
  lthread_detach s = raise_bit s.current_lthread detach s

  unfoldable pub lthread_detach2 : ℕ → Sched → Sched
  lthread_detach2 p = raise_bit p detach

  abbrev pub lthread_id : Sched → ℕ
  lthread_id s = (s.lt s.current_lthread).id
