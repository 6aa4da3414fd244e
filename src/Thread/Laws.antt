-- ===== src/Thread/Laws.antt =====
-- Cancelling, joining and exiting: what the functions of src/lthread.c do to a thread and to the
-- thread that joins on it.
use lthread.Base.{
  ℕ, ◌≡◌, ◌≢◌, refl, ap, ◌∙◌, true, false, none, some, arith, [], ◌∷◌, ◌++◌, push_back,
  append_assoc,
}
use lthread.Rb.{RbTree}
use lthread.Sched.State.{cancelled, Sched, has, raise_bit, modify}
use lthread.Sched.Sleep.{desched_sleep, sched_busy_sleep_begin}
use lthread.Sched.Sleep.Frame.{sched_busy_sleep_begin-BusyFrame}
use lthread.Sched.Event.{cancel_event}
use lthread.Sched.Event.Keeps.{Kept, desched_sleep-Kept, cancel_event-Kept, cancel_event-fd_wait}
use lthread.Thread.{
  lthread_create, lthread_cancel, lthread_exit, lthread_join_begin, waits, works_elsewhere,
}

module _ ⦃T : RbTree⦄ where
  -- what `lthread_cancel` has done when it decides whether to schedule the thread
  abbrev struck : ℕ → Sched → Sched
  struck p s = cancel_event p (desched_sleep p (raise_bit p cancelled s))

  struck-Kept : (p : ℕ) (s : Sched) → Kept p (raise_bit p cancelled s) (struck p s)
  struck-Kept p s =
      let t = raise_bit p cancelled s in
      ground (arith, desched_sleep-Kept p p t, cancel_event-Kept p p (desched_sleep p t))

  -- A cancelled thread that no other pthread works for is appended to the ready queue, wherever it
  -- stood before; it is marked and waits for no descriptor.
  pub lthread_cancel_lem :
      (p : ℕ) (s : Sched)
      → p ≢ 0
      → works_elsewhere p s ≡ false
      → ((lthread_cancel p s).ready_q ≡ push_back s.ready_q p)
        × (has p cancelled (lthread_cancel p s) ≡ true)
        × (((lthread_cancel p s).lt p).fd_wait ≡ none)
  unfolding lthread_cancel
  lthread_cancel_lem p s ne here =
      let t = desched_sleep p (raise_bit p cancelled s) in
      ground (arith, struck-Kept p s, cancel_event-fd_wait p t)

  unstarted :
      (p func arg : ℕ) (s : Sched)
      → works_elsewhere p (lthread_create (some p) true func arg s).1 ≡ false
  unfolding lthread_create
  unstarted p func arg s = ground arith

  ready_created :
      (p func arg : ℕ) (s : Sched)
      → (lthread_create (some p) true func arg s).1.ready_q ≡ push_back s.ready_q p
  unfolding lthread_create
  ready_created p func arg s = refl

  -- A thread that is cancelled before it first runs stands in the ready queue twice.
  pub cancel_unstarted :
      (p func arg : ℕ) (s : Sched)
      → p ≢ 0
      → (lthread_cancel p (lthread_create (some p) true func arg s).1).ready_q
        ≡ s.ready_q ++ p ∷ p ∷ []
  cancel_unstarted p func arg s ne =
      let t = (lthread_create (some p) true func arg s).1 in
      (lthread_cancel_lem p t ne (unstarted p func arg s)).0
      ∙ ap (λ q. q ++ p ∷ []) (ready_created p func arg s)
      ∙ append_assoc s.ready_q (p ∷ []) (p ∷ [])

  exit_writes :
      (ptr value : ℕ) (s : Sched) (j : ℕ)
      → (s.lt s.current_lthread).lt_join ≡ j
      → (s.lt j).lt_exit_ptr ≡ ptr
      → j ≢ 0
      → ptr ≢ 0
      → value ≢ 0
      → (lthread_exit value s).cells ptr ≡ value
  unfolding lthread_exit
  exit_writes ptr value s j hj hp nj np nv = ground arith

  join_waits :
      (p ptr timeout : ℕ) (s : Sched) {s' : Sched}
      → p ≢ s.current_lthread
      → lthread_join_begin p ptr timeout s ≡ waits (some s')
      → ((s'.lt p).lt_join ≡ s.current_lthread) × ((s'.lt s.current_lthread).lt_exit_ptr ≡ ptr)
  unfolding lthread_join_begin
  join_waits p ptr timeout s {s'} ne h =
      let me = s.current_lthread in
      let t =
        modify me (λ l. record l { lt_exit_ptr = ptr })
          (modify p (λ l. record l { lt_join = me }) s) in
      let run : sched_busy_sleep_begin me timeout t ≡ some s' = ground arith in
      let f = sched_busy_sleep_begin-BusyFrame me timeout t run in
      (ground (arith, f.same_others p ne), ground (arith, f.same_exit_ptr))

  -- The value that a thread passes to lthread_exit reaches the cell that its joiner named in
  -- lthread_join, if neither is NULL and the thread exits next after the join.
  pub join_exit :
      (p ptr timeout value : ℕ) (s : Sched) {s' : Sched}
      → p ≢ s.current_lthread
      → s.current_lthread ≢ 0
      → ptr ≢ 0
      → value ≢ 0
      → lthread_join_begin p ptr timeout s ≡ waits (some s')
      → (lthread_exit value (record s' { current_lthread = p })).cells ptr ≡ value
  join_exit p ptr timeout value s {s'} ne me hp hv h =
      let j = join_waits p ptr timeout s ne h in
      exit_writes ptr value (record s' { current_lthread = p }) s.current_lthread j.0 j.1 me hp hv
