-- ===== src/Sched/Event/Keeps.antt =====
-- Flags and sleep tree through `_lthread_cancel_event` of src/lthread_sched.c.
use lthread.Base.{ℕ, ◌≡◌, refl, Bool-cases, Option-cases, inl, inr, Option, none, some, arith}
use lthread.Rb.{RbTree}
use lthread.Sched.State.{
  LthreadEvent, wait_read, wait_write, cancelled, pending_runcompute, runcompute, wait_io_read,
  wait_io_write, exited, detach, busy, Sched, has,
}
use lthread.Sched.Event.{
  fd_key, fd_only, fd_event, desched_event, clear_interest, desched_key, cancel_event,
}
use lthread.Sched.Sleep.Inv.{SleepersAgree, update-Agrees, desched_sleep-Agrees}
use lthread.Sched.Sleep.{desched_sleep}

module _ ⦃T : RbTree⦄ where
  pub desched_event-Agrees :
      (fd : ℕ) (e : LthreadEvent) (s : Sched)
      → SleepersAgree s
      → SleepersAgree (desched_event fd e s).1
  unfolding desched_event
  desched_event-Agrees fd e s a = elim (Option-cases (T.find (fd_key fd e) s.wait_tree)) [
    | inl f ↦ rw (f, desched_event) a
    | inr (p, f) ↦ rw (f, desched_event) (desched_sleep-Agrees p _ a)
  ]

  pub clear_interest-Agrees :
      (p : ℕ) (s : Sched) → SleepersAgree s → SleepersAgree (clear_interest p s)
  clear_interest-Agrees p s a = elim (Bool-cases (has p wait_read s)) [
    | inl r ↦ rw r (update-Agrees s.lt s.sleep_tree p _ refl refl a)
    | inr nr ↦ elim (Bool-cases (has p wait_write s)) [
      | inl w ↦ rw (nr, w) (update-Agrees s.lt s.sleep_tree p _ refl refl a)
      | inr nw ↦ rw (nr, nw) a
    ]
  ]

  desched_key-Agrees :
      (k : Option ℕ) (s : Sched) → SleepersAgree s → SleepersAgree (desched_key k s)
  desched_key-Agrees none s a = a
  desched_key-Agrees (some k) s a = desched_event-Agrees (fd_only k) (fd_event k) s a

  pub cancel_event-Agrees : (p : ℕ) (s : Sched) → SleepersAgree s → SleepersAgree (cancel_event p s)
  unfolding cancel_event
  cancel_event-Agrees p s a =
      let s' = clear_interest p s in
      let k = (s'.lt p).fd_wait in
      update-Agrees _ _ p _ refl refl (desched_key-Agrees k s' (clear_interest-Agrees p s a))

  -- what waking and cancelling leave alone
  pub record Kept (q : ℕ) (s s' : Sched) : Type 0 where
    pub ready_q : s'.ready_q ≡ s.ready_q
    pub freed : s'.freed ≡ s.freed
    pub cancelled_bit : has q cancelled s' ≡ has q cancelled s
    pub pending_bit : has q pending_runcompute s' ≡ has q pending_runcompute s
    pub compute_bit : has q runcompute s' ≡ has q runcompute s
    pub io_read_bit : has q wait_io_read s' ≡ has q wait_io_read s
    pub io_write_bit : has q wait_io_write s' ≡ has q wait_io_write s
    pub exited_bit : has q exited s' ≡ has q exited s
    pub detach_bit : has q detach s' ≡ has q detach s
    pub busy_bit : has q busy s' ≡ has q busy s

  pub desched_sleep-Kept : (p q : ℕ) (s : Sched) → Kept q s (desched_sleep p s)
  unfolding desched_sleep
  desched_sleep-Kept p q s = ground arith

  desched_event-Kept :
      (fd : ℕ) (e : LthreadEvent) (q : ℕ) (s : Sched) → Kept q s (desched_event fd e s).1
  unfolding desched_event
  desched_event-Kept fd e q s = elim (Option-cases (T.find (fd_key fd e) s.wait_tree)) [
    | inl f ↦ ground arith
    | inr (p, f) ↦
        rw (f, desched_event)
          (ground (
            arith,
            desched_sleep-Kept p q (record s { wait_tree = T.remove (fd_key fd e) s.wait_tree }),
          ))
  ]

  clear_interest-Kept : (p q : ℕ) (s : Sched) → Kept q s (clear_interest p s)
  clear_interest-Kept p q s = ground arith

  desched_key-Kept : (k : Option ℕ) (q : ℕ) (s : Sched) → Kept q s (desched_key k s)
  desched_key-Kept none q s = ground arith
  desched_key-Kept (some k) q s = desched_event-Kept (fd_only k) (fd_event k) q s

  pub cancel_event-Kept : (p q : ℕ) (s : Sched) → Kept q s (cancel_event p s)
  unfolding cancel_event
  cancel_event-Kept p q s =
      let s' = clear_interest p s in
      ground (arith, clear_interest-Kept p q s, desched_key-Kept (s'.lt p).fd_wait q s')

  pub cancel_event-fd_wait : (p : ℕ) (s : Sched) → ((cancel_event p s).lt p).fd_wait ≡ none
  unfolding cancel_event
  cancel_event-fd_wait p s = ground arith
