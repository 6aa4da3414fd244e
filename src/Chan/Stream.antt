-- ===== src/Chan/Stream.antt =====
-- The operations of src/chan.c on a buffered channel on which nobody waits, next to a bounded
-- sequence of messages.
use lthread.Base.{
  ℕ, ◌<◌, ◌≤◌, ◌≡◌, refl, ap, sym, ◌∙◌, subst, false, Option, none, some, [], ◌∷◌, length, arith,
  get_or-set_self, ◌+◌, ltb,
}
use lthread.Rb.{RbTree}
use lthread.Sched.State.{Sched}
use lthread.Fifo.{Queue, queue_add, queue_remove}
use lthread.Chan.State.{World, set_target, msg, chan_at}
use lthread.Chan.Select.{
  SelectStep, aborted, overrun, done, blocks, chosen, minus_one, set_up, sel_init, chan_is_closed,
  block_select, forever, lthr_sel_chans, join_sendqs, join_recvqs, select_wait, chan_send_noblock,
  chan_recv,
}
use lthread.Cond.{cond_wait_begin}
use lthread.Chan.Try.{try_send, try_recv}
use lthread.Chan.Buffer.{
  Buffers, buffered, drained, block_select_sent, block_select_full, block_select_received,
  block_select_waits, try_send_room, try_send_full, try_recv_items, try_recv_empty,
}

module _ ⦃T : RbTree⦄ where
  -- the world in which a send or a receive calls `chan_block_select_`
  abbrev pub begun : ℕ → ℕ → ℕ → ℕ → ℕ → World → World
  begun s c v wcount rcount w = set_up s (c ∷ []) (v ∷ []) wcount rcount (sel_init s w)

  module _ (s c v wcount rcount : ℕ) (w : World) where
    begun-Buffers : {q : Queue} → Buffers c q w → Buffers c q (begun s c v wcount rcount w)
    unfolding sel_init
    begun-Buffers b = record {
      queue = b.queue;
      opened = b.opened;
      no_sender = b.no_sender;
      no_receiver = b.no_receiver;
    }

    begun_sel :
        (((begun s c v wcount rcount w).sel s).wchan_count ≡ wcount)
        × (((begun s c v wcount rcount w).sel s).rchan_count ≡ rcount)
        × (((begun s c v wcount rcount w).sel s).target ≡ none)
        × (chan_at s 0 (begun s c v wcount rcount w) ≡ c)
        × (msg s 0 (begun s c v wcount rcount w) ≡ v)
    unfolding sel_init
    begun_sel = (ground arith, ground arith, ground arith, ground arith, ground arith)

  buffered_ends :
      (s c : ℕ) (q : Queue) (v : ℕ) (w : World)
      → Buffers c q w
      → (((buffered s c q v w).sel s).target ≡ some 0)
        × Buffers c (queue_add q v).1 (set_target s none (buffered s c q v w))
  buffered_ends s c q v w b = (
    ground arith,
    record {
      queue = ground arith;
      opened = ground (arith, b.opened);
      no_sender = ground (arith, b.no_sender);
      no_receiver = ground (arith, b.no_receiver);
    },
  )

  send_selects :
      (s c v : ℕ) (w : World)
      → (w.chan c).closed ≡ false
      → chan_send_noblock s c v w ≡ block_select s 0 (begun s c v 1 0 w)
  unfolding chan_send_noblock chan_is_closed
  send_selects s c v w opened_ = rw (chan_send_noblock, chan_is_closed, opened_) refl

  pub send_room :
      (s c v : ℕ) (q : Queue) (w : World)
      → Buffers c q w
      → q.size < q.capacity
      → (w' : World) × (chan_send_noblock s c v w ≡ done (chosen 0) w')
        × Buffers c (queue_add q v).1 w'
  send_room s c v q w b room =
      let w1 = begun s c v 1 0 w in
      let (one, zero_, idle, at_, it) = begun_sel s c v 1 0 w in
      let b1 = begun-Buffers s c v 1 0 w b in
      let (target_, b2) = buffered_ends s c q (msg s 0 w1) w1 b1 in
      (
        set_target s none (buffered s c q (msg s 0 w1) w1),
        send_selects s c v w b.opened
            ∙ block_select_sent s 0 w1 (buffered s c q (msg s 0 w1) w1) one
                (ap (λ d. try_send s d 0 w1) at_ ∙ try_send_room s c q w1 b1 room) target_,
        subst
            (λ m. Buffers c (queue_add q m).1 (set_target s none (buffered s c q (msg s 0 w1) w1)))
            it b2,
      )

  pub send_full :
      (s c v : ℕ) (q : Queue) (w : World)
      → Buffers c q w
      → q.capacity ≤ q.size
      → (w' : World) × (chan_send_noblock s c v w ≡ done minus_one w') × Buffers c q w'
  send_full s c v q w b full_ =
      let w1 = begun s c v 1 0 w in
      let (one, zero_, idle, at_, it) = begun_sel s c v 1 0 w in
      let b1 = begun-Buffers s c v 1 0 w b in
      (
        w1,
        send_selects s c v w b.opened
            ∙ block_select_full s w1 one zero_ idle
                (ap (λ d. try_send s d 0 w1) at_ ∙ try_send_full s c q w1 b1 full_ idle),
        b1,
      )

  drained_ends :
      (s c : ℕ) (q : Queue) (w : World)
      → Buffers c q w
      → 0 < length (w.sel s).msgs
      → (((drained s c q w).sel s).target ≡ some 0)
        × (msg s 0 (set_target s none (drained s c q w)) ≡ (queue_remove q).0)
        × Buffers c (queue_remove q).1 (set_target s none (drained s c q w))
  drained_ends s c q w b has_slot = (
    ground arith,
    ground (arith, get_or-set_self (w.sel s).msgs 0 (queue_remove q).0 0),
    record {
      queue = ground arith;
      opened = ground (arith, b.opened);
      no_sender = ground (arith, b.no_sender);
      no_receiver = ground (arith, b.no_receiver);
    },
  )

  pub receive_some :
      (s c out : ℕ) (q : Queue) (w : World)
      → Buffers c q w
      → 0 < q.size
      → (w' : World) × (chan_recv s c out w ≡ done (chosen 0) w')
        × (msg s 0 w' ≡ (queue_remove q).0)
        × Buffers c (queue_remove q).1 w'
  unfolding chan_recv
  receive_some s c out q w b some_ =
      let w1 = begun s c out 0 1 w in
      let (none_, one, idle, at_, it) = begun_sel s c out 0 1 w in
      let b1 = begun-Buffers s c out 0 1 w b in
      let (target_, got, b2) = drained_ends s c q w1 b1 (ground arith) in
      (
        set_target s none (drained s c q w1),
        block_select_received s forever w1 (drained s c q w1) none_ one idle
            (ap (λ d. try_recv s d 0 w1) at_ ∙ try_recv_items s c q w1 b1 some_) target_,
        got,
        b2,
      )

  abbrev pub Stalls : SelectStep → Type 0
  Stalls (done r w) = ⊥
  Stalls aborted = Unit {0}
  Stalls overrun = ⊥
  Stalls (blocks w) = Unit {0}

  waits_or_aborts :
      (w : World) (o : Option Sched)
      → Stalls (elim o as (λ _. SelectStep) [
        | none ↦ aborted
        | some s ↦ blocks (record w { sched = s })
      ])
  waits_or_aborts w none = tt
  waits_or_aborts w (some s) = tt

  select_wait-Stalls :
      (s : ℕ) (w : World)
      → (w.sel s).wchan_count + (w.sel s).rchan_count ≤ lthr_sel_chans
      → Stalls (select_wait s forever w)
  unfolding select_wait
  select_wait-Stalls s w room =
      let fits : ltb lthr_sel_chans ((w.sel s).wchan_count + (w.sel s).rchan_count) ≡ false =
        ground arith in
      let w' =
        join_recvqs s (w.sel s).rchan_count (w.sel s).wchan_count
          (join_sendqs s (w.sel s).wchan_count 0 w) in
      rw (fits) (waits_or_aborts w' (cond_wait_begin (w.sel s).cond forever w'.sched))

  pub receive_none :
      (s c out : ℕ) (q : Queue) (w : World)
      → Buffers c q w
      → q.size ≡ 0
      → Stalls (chan_recv s c out w)
  unfolding chan_recv
  receive_none s c out q w b empty =
      let w1 = begun s c out 0 1 w in
      let (none_, one, idle, at_, it) = begun_sel s c out 0 1 w in
      let b1 = begun-Buffers s c out 0 1 w b in
      subst Stalls
        (sym (
          block_select_waits s forever w1 none_ one idle
            (ap (λ d. try_recv s d 0 w1) at_ ∙ try_recv_empty s c q w1 b1 empty idle)))
        (select_wait-Stalls s w1 (omega (arith, none_, one)))
