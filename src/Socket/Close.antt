-- ===== src/Socket/Close.antt =====
-- Whom `lthread_close` of src/lthread_socket.c wakes.
use lthread.Base.{
  ℕ, ◌≡◌, ◌≢◌, sym, ap, ◌∙◌, true, false, some, [], ◌∷◌, ◌++◌, arith, if◌then◌else◌, subst,
  append_assoc,
}
use lthread.Rb.{RbTree}
use lthread.Rb.Laws.{IsSorted}
use lthread.Rb.Tree.{find-remove_tree}
use lthread.Sched.State.{
  fdeof, sleeping, ev_read, ev_write, LthreadEvent, Sched, has, raise_bit, drop_bit, make_ready,
}
use lthread.Sched.Sleep.{desched_sleep}
use lthread.Sched.Sleep.Wake.{desched_sleep-awake, desched_sleep-queues}
use lthread.Sched.Event.{fd_key, desched_event}
use lthread.Sched.Event.Laws.{desched_event-found}
use lthread.Socket.Open.{notify_eof, close_begin}

module _ ⦃T : RbTree⦄ where
  desched_sleep-fdeof : (p q : ℕ) (s : Sched) → has q fdeof (desched_sleep p s) ≡ has q fdeof s
  unfolding desched_sleep
  desched_sleep-fdeof p q s = ground arith

  desched_sleep-sleepy :
      (p q : ℕ) (s : Sched) → has q sleeping s ≡ false → has q sleeping (desched_sleep p s) ≡ false
  unfolding desched_sleep
  desched_sleep-sleepy p q s h = ground arith

  desched_sleep-current :
      (p : ℕ) (s : Sched) → (desched_sleep p s).current_lthread ≡ s.current_lthread
  unfolding desched_sleep
  desched_sleep-current p s = ground arith

  -- The state once the thread that waits under a key was told of the end of its descriptor.
  abbrev told : ℕ → ℕ → Sched → Sched
  told k p s =
      raise_bit p fdeof
        (make_ready p (desched_sleep p (record s { wait_tree = T.remove k s.wait_tree })))

  notify-told :
      (fd p : ℕ) (e : LthreadEvent) (s : Sched)
      → T.find (fd_key fd e) s.wait_tree ≡ some p
      → notify_eof (desched_event fd e s) ≡ told (fd_key fd e) p s
  notify-told fd p e s h = ap notify_eof (desched_event-found fd p e s h)

  tree-told : (k p : ℕ) (s : Sched) → (told k p s).wait_tree ≡ T.remove k s.wait_tree
  tree-told k p s = (desched_sleep-queues p (record s { wait_tree = T.remove k s.wait_tree })).3

  current-told : (k p : ℕ) (s : Sched) → (told k p s).current_lthread ≡ s.current_lthread
  current-told k p s = desched_sleep-current p (record s { wait_tree = T.remove k s.wait_tree })

  ready-told : (k p : ℕ) (s : Sched) → (told k p s).ready_q ≡ s.ready_q ++ p ∷ []
  ready-told k p s =
      ap (λ l. l ++ p ∷ [])
        ((desched_sleep-queues p (record s { wait_tree = T.remove k s.wait_tree })).1)

  eof-told : (k p q : ℕ) (s : Sched) → has q fdeof s ≡ true → has q fdeof (told k p s) ≡ true
  eof-told k p q s h =
      ground (arith, desched_sleep-fdeof p q (record s { wait_tree = T.remove k s.wait_tree }))

  eof_self-told : (k p : ℕ) (s : Sched) → has p fdeof (told k p s) ≡ true
  eof_self-told k p s = ground arith

  awake-told :
      (k p q : ℕ) (s : Sched) → has q sleeping s ≡ false → has q sleeping (told k p s) ≡ false
  awake-told k p q s h =
      ground (arith, desched_sleep-sleepy p q (record s { wait_tree = T.remove k s.wait_tree }) h)

  awake_self-told : (k p : ℕ) (s : Sched) → has p sleeping (told k p s) ≡ false
  awake_self-told k p s =
      ground (arith, desched_sleep-awake p (record s { wait_tree = T.remove k s.wait_tree }))

  abbrev clear_own : Sched → Sched
  clear_own s = if has s.current_lthread fdeof s then drop_bit s.current_lthread fdeof s else s

  clear_own-fdeof :
      (q : ℕ) (s : Sched) → q ≢ s.current_lthread → has q fdeof (clear_own s) ≡ has q fdeof s
  clear_own-fdeof q s ne = ground (arith, ne)

  clear_own-rest :
      (q : ℕ) (s : Sched)
      → (has q sleeping (clear_own s) ≡ has q sleeping s) × ((clear_own s).ready_q ≡ s.ready_q)
  clear_own-rest q s = ground arith

  close_begin-told :
      (fd r w : ℕ) (s : Sched)
      → IsSorted (T.entries s.wait_tree)
      → T.find (fd_key fd ev_read) s.wait_tree ≡ some r
      → T.find (fd_key fd ev_write) s.wait_tree ≡ some w
      → close_begin fd s ≡ clear_own (told (fd_key fd ev_write) w (told (fd_key fd ev_read) r s))
  unfolding close_begin
  close_begin-told fd r w s sorted hr hw =
      let kr = fd_key fd ev_read in
      let still : T.find (fd_key fd ev_write) (told kr r s).wait_tree ≡ some w =
        ap (T.find (fd_key fd ev_write)) (tree-told kr r s)
        ∙ find-remove_tree s.wait_tree kr (fd_key fd ev_write) sorted
        ∙ ground (arith, hw) in
      ap (λ t. clear_own (notify_eof (desched_event fd ev_write t))) (notify-told fd r ev_read s hr)
      ∙ ap clear_own (notify-told fd w ev_write (told kr r s) still)

  -- The threads `r` and `w` have been told.
  pub record Told (s s' : Sched) (r w : ℕ) : Type 0 where
    pub reader_eof : has r fdeof s' ≡ true
    pub writer_eof : has w fdeof s' ≡ true
    pub reader_awake : has r sleeping s' ≡ false
    pub writer_awake : has w sleeping s' ≡ false
    pub queued : s'.ready_q ≡ s.ready_q ++ r ∷ w ∷ []

  -- Let one thread wait to read from a descriptor and one to write to it, both other than the
  -- calling thread, in a wait tree whose entries are in key order. After lthread_close of it both
  -- have LT_ST_FDEOF set and sleep no more, and they are appended to the ready queue, the reader
  -- first.
  pub close_begin-Told :
      (fd r w : ℕ) (s : Sched)
      → IsSorted (T.entries s.wait_tree)
      → T.find (fd_key fd ev_read) s.wait_tree ≡ some r
      → T.find (fd_key fd ev_write) s.wait_tree ≡ some w
      → r ≢ s.current_lthread
      → w ≢ s.current_lthread
      → Told s (close_begin fd s) r w
  close_begin-Told fd r w s sorted hr hw nr nw =
      let kr = fd_key fd ev_read in
      let kw = fd_key fd ev_write in
      let a = told kr r s in
      let b = told kw w a in
      let own : b.current_lthread ≡ s.current_lthread = current-told kw w a ∙ current-told kr r s in
      subst (λ (t : Sched). Told s t r w) (sym (close_begin-told fd r w s sorted hr hw))
        (record {
          reader_eof =
              clear_own-fdeof r b (λ e. nr (e ∙ own)) ∙ eof-told kw w r a (eof_self-told kr r s);
          writer_eof = clear_own-fdeof w b (λ e. nw (e ∙ own)) ∙ eof_self-told kw w a;
          reader_awake = (clear_own-rest r b).0 ∙ awake-told kw w r a (awake_self-told kr r s);
          writer_awake = (clear_own-rest w b).0 ∙ awake_self-told kw w a;
          queued =
              (clear_own-rest r b).1
              ∙ ready-told kw w a
              ∙ ap (λ l. l ++ w ∷ []) (ready-told kr r s)
              ∙ append_assoc s.ready_q (r ∷ []) (w ∷ []);
        })
