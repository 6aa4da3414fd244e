-- ===== src/Sched/Sleep/Frame.antt =====
-- What going to sleep leaves alone: `_lthread_sched_sleep` of src/lthread_sched.c touches the sleep
-- tree and its own thread only.
use lthread.Base.{ℕ, ◌≡◌, ◌≢◌, true, some, arith, ◌∷◌, Option-cases, inl, inr}
use lthread.Rb.{RbTree}
use lthread.Sched.State.{busy, expired, Sched, has, raise_bit}
use lthread.Sched.Sleep.{
  insert_sleeper, sched_sleep_begin, sched_busy_sleep_begin, sleep_fuel, deadline,
}

module _ ⦃T : RbTree⦄ where
  pub record Frame (p : ℕ) (s s' : Sched) : Type 0 where
    pub same_wait : s'.wait_tree ≡ s.wait_tree
    pub same_ready : s'.ready_q ≡ s.ready_q
    pub same_busy : s'.busy_l ≡ s.busy_l
    pub same_blocked : s'.blocked ≡ s.blocked
    pub same_current : s'.current_lthread ≡ s.current_lthread
    pub same_freed : s'.freed ≡ s.freed
    pub same_fd : (s'.lt p).fd_wait ≡ (s.lt p).fd_wait
    pub same_join : (s'.lt p).lt_join ≡ (s.lt p).lt_join
    pub same_exit_ptr : (s'.lt p).lt_exit_ptr ≡ (s.lt p).lt_exit_ptr
    pub same_others : (q : ℕ) → q ≢ p → s'.lt q ≡ s.lt q
    pub same_expired : has p expired s' ≡ has p expired s
    pub same_busy_bit : has p busy s' ≡ has p busy s

  pub sched_sleep_begin-Frame :
      (p msecs : ℕ) (s : Sched) {s' : Sched} → sched_sleep_begin p msecs s ≡ some s' → Frame p s s'
  unfolding sched_sleep_begin
  sched_sleep_begin-Frame p msecs s {s'} h =
      elim (Option-cases
        (insert_sleeper (sleep_fuel s.sleep_tree) (deadline msecs s) p s.sleep_tree)) [
          | inl e ↦ record {
            same_wait = ground arith;
            same_ready = ground arith;
            same_busy = ground arith;
            same_blocked = ground arith;
            same_current = ground arith;
            same_freed = ground arith;
            same_fd = ground arith;
            same_join = ground arith;
            same_exit_ptr = ground arith;
            same_others = λ q ne. ground arith;
            same_expired = ground arith;
            same_busy_bit = ground arith;
          }
          | inr ((k, t), e) ↦ record {
            same_wait = ground arith;
            same_ready = ground arith;
            same_busy = ground arith;
            same_blocked = ground arith;
            same_current = ground arith;
            same_freed = ground arith;
            same_fd = ground arith;
            same_join = ground arith;
            same_exit_ptr = ground arith;
            same_others = λ q ne. ground arith;
            same_expired = ground arith;
            same_busy_bit = ground arith;
          }
        ]

  -- `_lthread_sched_busy_sleep` besides enters its thread into the busy list.
  pub record BusyFrame (p : ℕ) (s s' : Sched) : Type 0 where
    pub same_ready : s'.ready_q ≡ s.ready_q
    pub now_busy : s'.busy_l ≡ p ∷ s.busy_l
    pub same_blocked : s'.blocked ≡ s.blocked
    pub same_current : s'.current_lthread ≡ s.current_lthread
    pub same_freed : s'.freed ≡ s.freed
    pub same_exit_ptr : (s'.lt p).lt_exit_ptr ≡ (s.lt p).lt_exit_ptr
    pub same_others : (q : ℕ) → q ≢ p → s'.lt q ≡ s.lt q
    pub busy_bit : has p busy s' ≡ true

  pub sched_busy_sleep_begin-BusyFrame :
      (p msecs : ℕ) (s : Sched) {s' : Sched}
      → sched_busy_sleep_begin p msecs s ≡ some s'
      → BusyFrame p s s'
  unfolding sched_busy_sleep_begin
  sched_busy_sleep_begin-BusyFrame p msecs s h =
      let s1 = raise_bit p busy (record s { busy_l = p ∷ s.busy_l }) in
      let f = sched_sleep_begin-Frame p msecs s1 h in
      record {
        same_ready = f.same_ready;
        now_busy = f.same_busy;
        same_blocked = f.same_blocked;
        same_current = f.same_current;
        same_freed = f.same_freed;
        same_exit_ptr = ground (arith, f.same_exit_ptr);
        same_others = λ q ne. ground (arith, f.same_others q ne);
        busy_bit = ground (arith, f.same_busy_bit);
      }
