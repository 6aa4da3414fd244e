-- ===== src/Sched/Event/Laws.antt =====
-- Waiting on a descriptor and being found by its event: the keys and the wait tree of
-- src/lthread_sched.c.
use lthread.Base.{ℕ, ◌-◌, ◌≡◌, refl, ap, ◌∙◌, false, Option-cases, inl, inr, Option, some, arith}
use lthread.Rb.{RbTree}
use lthread.Rb.Tree.{find-insert_tree, insert_free, find-remove_tree, insert-Sorted}
use lthread.Sched.State.{LthreadEvent, ev_read, ev_write, sleeping, u64, Sched, has}
use lthread.Sched.Event.{
  wait_bit, register, fd_key, fd_only, fd_event, desched_event, sched_event_begin, aborted,
  returned, yielded,
}
use lthread.Rb.Laws.{IsSorted}
use lthread.Sched.Sleep.{desched_sleep, sched_sleep_begin}
use lthread.Sched.Sleep.Frame.{sched_sleep_begin-Frame}
use lthread.Sched.Sleep.Wake.{desched_sleep-awake, desched_sleep-queues}
use lthread.Sched.State.{modify, set_bit}

-- A descriptor and an event can be read back from their key.
pub fd_key-parts :
    (fd : ℕ) (e : LthreadEvent) → (fd_only (fd_key fd e) ≡ fd) × (fd_event (fd_key fd e) ≡ e)
fd_key-parts fd ev_read = (omega arith, ground arith)
fd_key-parts fd ev_write = (omega arith, ground arith)

module _ ⦃T : RbTree⦄ where
  -- After a wait with timeout -1, which returns at once, any further wait of the same thread fails
  -- the assertion on its state.
  pub sched_event-sched_event :
      (p fd fd' timeout : ℕ) (e e' : LthreadEvent) (s : Sched) {s' : Sched}
      → sched_event_begin p fd e (u64 - 1) s ≡ returned s'
      → sched_event_begin p fd' e' timeout s' ≡ aborted
  unfolding sched_event_begin
  sched_event-sched_event p fd fd' timeout ev_read e' s h = ground arith
  sched_event-sched_event p fd fd' timeout ev_write e' s h = ground arith

  -- the state that `_lthread_sched_event` hands to `_lthread_sched_sleep`
  abbrev enrolled : ℕ → ℕ → LthreadEvent → T.Tree → Sched → Sched
  enrolled p fd e t s =
      modify p
        (λ l. record l { state = set_bit (wait_bit e) l.state; fd_wait = some (fd_key fd e) })
        (record (register fd e s) { wait_tree = t })

  yielded_cases :
      (p fd timeout : ℕ) (e : LthreadEvent) (s : Sched) {s' : Sched}
      → sched_event_begin p fd e timeout s ≡ yielded s'
      → (t : T.Tree) × (T.insert (fd_key fd e) p s.wait_tree ≡ some t)
        × (sched_sleep_begin p timeout (enrolled p fd e t s) ≡ some s')
  unfolding sched_event_begin
  yielded_cases p fd timeout e s h = elim (Option-cases (T.insert (fd_key fd e) p s.wait_tree)) [
    | inl f ↦ ground arith
    | inr (t, f) ↦ (t, f, ground arith)
  ]

  -- what the event's arrival returns and leaves behind
  pub record Delivered (p : ℕ) (s : Sched) (out : Option ℕ × Sched) : Type 0 where
    pub who : out.0 ≡ some p
    pub restored : (k : ℕ) → T.find k out.1.wait_tree ≡ T.find k s.wait_tree
    pub awake : has p sleeping out.1 ≡ false

  wait_tree-enrolled :
      (p fd : ℕ) (e : LthreadEvent) (t : T.Tree) (s : Sched) → (enrolled p fd e t s).wait_tree ≡ t
  wait_tree-enrolled p fd e t s = refl

  pub desched_event-found :
      (fd p : ℕ) (e : LthreadEvent) (s : Sched)
      → T.find (fd_key fd e) s.wait_tree ≡ some p
      → desched_event fd e s
        ≡ (some p, desched_sleep p (record s { wait_tree = T.remove (fd_key fd e) s.wait_tree }))
  unfolding desched_event
  desched_event-found fd p e s f = rw (f, desched_event)

  -- A key put into the tree and taken out again
  insert_remove :
      (k p j : ℕ) (t : T.Tree) {t' : T.Tree}
      → IsSorted (T.entries t)
      → T.insert k p t ≡ some t'
      → T.find j (T.remove k t') ≡ T.find j t
  insert_remove k p j t {t'} sorted ins = ground (
    arith,
    find-remove_tree t' k j (insert-Sorted t k p ins sorted),
    find-insert_tree t k p ins j,
    insert_free t k p ins sorted,
  )

  -- An event finds the thread that waits for it: once a thread has yielded in _lthread_sched_event,
  -- _lthread_desched_event of the same descriptor and event returns that thread, wakes it and
  -- leaves every key of the wait tree as it was before the wait.
  pub desched_event-sched_event :
      (p fd timeout : ℕ) (e : LthreadEvent) (s : Sched) {s' : Sched}
      → IsSorted (T.entries s.wait_tree)
      → sched_event_begin p fd e timeout s ≡ yielded s'
      → Delivered p s (desched_event fd e s')
  desched_event-sched_event p fd timeout e s {s'} sorted h =
      let (t, ins, run) = yielded_cases p fd timeout e s h in
      let frame = sched_sleep_begin-Frame p timeout (enrolled p fd e t s) run in
      let found : T.find (fd_key fd e) s'.wait_tree ≡ some p =
        ground (
          arith,
          frame.same_wait,
          find-insert_tree s.wait_tree (fd_key fd e) p ins (fd_key fd e),
        ) in
      let left = record s' { wait_tree = T.remove (fd_key fd e) s'.wait_tree } in
      rw (desched_event-found fd p e s' found) (record {
        who = refl;
        restored = λ k.
            ap (T.find k) ((desched_sleep-queues p left).3)
            ∙ ap (λ w. T.find k (T.remove (fd_key fd e) w)) frame.same_wait
            ∙ insert_remove (fd_key fd e) p k s.wait_tree sorted ins;
        awake = desched_sleep-awake p left;
      })
