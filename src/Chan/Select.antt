-- ===== src/Chan/Select.antt =====
-- The operations of a channel: `chan_init`, `chan_close`, `chan_send`, `chan_send_noblock`,
-- `chan_recv`, `chan_size`, `chan_select` and `chan_block_select_` of src/chan.c.
use lthread.Base.{
  ℕ, zero, suc, ◌+◌, Bool, true, false, Option, none, some, List, [], ◌∷◌, ◌==◌, ltb, if◌then◌else◌,
  push_back,
}
use lthread.Rb.{RbTree}
use lthread.Fifo.{Queue, InitResult, queue, failed, queue_init}
use lthread.Sched.State.{Sched}
use lthread.Cond.{cond_init, cond_wait_begin, cond_wait_end, cond_signal}
use lthread.Chan.State.{Wait, Chan, World, set_chan, set_sel, set_target, set_msg, chan_at}
use lthread.Chan.Try.{Attempt, is_open, sel_remove_all_chans, try_send, try_recv}

-- LTHREAD_FOREVER, in milliseconds
abbrev pub forever : ℕ
forever = 0x01FFFFFF

-- the length of the array `waits` of a selector
abbrev pub lthr_sel_chans : ℕ
lthr_sel_chans = 8

-- what the operations return: the index of a channel, -1, -1 with errno EPIPE, or -2
pub data Ret : Type 0 where
  chosen : ℕ → Ret
  minus_one epipe minus_two : Ret

abbrev pub ret_of : Option ℕ → Ret
ret_of none = minus_one
ret_of (some n) = chosen n

abbrev pub queue_or_null : InitResult → Option Queue
queue_or_null (queue q) = some q
queue_or_null (failed e) = none

-- `chan_init` where the channel itself can be allocated; the allocations are those of `queue_init`.
-- A queue that cannot be had leaves the channel unbuffered.
unfoldable pub chan_init : ℕ → Bool → Option (List ℕ) → Chan
chan_init capacity header block = record {
  queue = if ltb 0 capacity then queue_or_null (queue_init capacity header block) else none;
  closed = false;
  send_count = 0;
  sendq = [];
  recv_count = 0;
  recvq = [];
}

abbrev queue_size : Option Queue → ℕ
queue_size none = 0
queue_size (some q) = q.size

module _ ⦃T : RbTree⦄ where
  abbrev pub with_sched : (Sched → Sched) → World → World
  with_sched f w = record w { sched = f w.sched }

  -- A receiver that waits gets NULL and is woken.
  abbrev pub give_null : Wait → World → World
  give_null x w =
      if is_open x.sel w
      then with_sched (cond_signal (w.sel x.sel).cond)
          (sel_remove_all_chans x.sel (set_target x.sel (some x.idx) (set_msg x.sel x.idx 0 w)))
      else w

  -- the loop of `chan_close` over the receivers that wait
  unfoldable pub close_waiters : List Wait → World → World
  close_waiters [] w = w
  close_waiters (x ∷ xs) w = close_waiters xs (give_null x w)

  -- False is the return value -1, with errno EPIPE.
  unfoldable pub chan_close : ℕ → World → Bool × World
  unfolding close_waiters
  chan_close c w =
      if (w.chan c).closed
      then (false, w)
      else let w' = set_chan c (record (w.chan c) { closed = true }) w in
        (true, close_waiters (w'.chan c).recvq w')

  unfoldable pub chan_is_closed : ℕ → World → Bool
  chan_is_closed c w = (w.chan c).closed

  unfoldable pub chan_size : ℕ → World → ℕ
  chan_size c w = queue_size (w.chan c).queue

  -- What a select does before it returns: it fails an assertion, it writes behind the array `waits` of
  -- its selector, it returns, or it blocks in `lthread_cond_wait`.
  pub data SelectStep : Type 0 where
    aborted overrun : SelectStep
    done : Ret → World → SelectStep
    blocks : World → SelectStep

  -- `lthread_sel_init`: the entries of a selector hold its address and their index by themselves.
  unfoldable pub sel_init : ℕ → World → World
  sel_init s w = set_target s none (with_sched (cond_init (w.sel s).cond) w)

  -- The loops of `chan_block_select_` over the channels to send on and to receive from: `n` rounds
  -- from the index `i` on, up to the first that serves the selector.
  unfoldable pub send_loop : ℕ → ℕ → ℕ → Option Wait → World → Option Attempt
  send_loop s zero i x w = some (record { hit = false; served = x; world = w })
  send_loop s (suc n) i x w = elim (try_send s (chan_at s i w) i w) [
    | none ↦ none
    | some a ↦
        let x' = elim a.served as (λ _. Option Wait) [ none ↦ x | some y ↦ some y ] in
        let rest = send_loop s n (i + 1) x' a.world in
        if a.hit then some (record a { served = x' }) else rest
  ]

  unfoldable pub recv_loop : ℕ → ℕ → ℕ → Option Wait → World → Attempt
  recv_loop s zero i x w = record { hit = false; served = x; world = w }
  recv_loop s (suc n) i x w =
      let a = try_recv s (chan_at s i w) i w in
      let x' = elim a.served as (λ _. Option Wait) [ none ↦ x | some y ↦ some y ] in
      let rest = recv_loop s n (i + 1) x' a.world in
      if a.hit then record a { served = x' } else rest

  -- The loops that put the selector's entries into the wait queues; each entry is one of `waits`.
  unfoldable pub join_sendqs : ℕ → ℕ → ℕ → World → World
  join_sendqs s zero i w = w
  join_sendqs s (suc n) i w =
      let c = chan_at s i w in
      join_sendqs s n (i + 1) (
        set_chan c
          (record (w.chan c) {
            send_count = (w.chan c).send_count + 1;
            sendq = push_back (w.chan c).sendq (record { sel = s; idx = i });
          })
          w)

  unfoldable pub join_recvqs : ℕ → ℕ → ℕ → World → World
  join_recvqs s zero i w = w
  join_recvqs s (suc n) i w =
      let c = chan_at s i w in
      join_recvqs s n (i + 1) (
        set_chan c
          (record (w.chan c) {
            recv_count = (w.chan c).recv_count + 1;
            recvq = push_back (w.chan c).recvq (record { sel = s; idx = i });
          })
          w)

  abbrev wake : Option Wait → World → World
  wake none w = w
  wake (some x) w = with_sched (cond_signal (w.sel x.sel).cond) w

  abbrev wait_step : World → Option Sched → SelectStep
  wait_step w none = aborted
  wait_step w (some s) = blocks (record w { sched = s })

  -- The part of `chan_block_select_` from the waiting on. The entries of more than `lthr_sel_chans`
  -- channels do not fit.
  unfoldable pub select_wait : ℕ → ℕ → World → SelectStep
  unfolding join_sendqs join_recvqs
  select_wait s timeout w =
      if timeout == 0
      then done minus_one w
      else let sl = w.sel s in
        let w' = join_recvqs s sl.rchan_count sl.wchan_count (join_sendqs s sl.wchan_count 0 w) in
        if ltb lthr_sel_chans (sl.wchan_count + sl.rchan_count)
        then overrun
        else wait_step w' (cond_wait_begin sl.cond timeout w'.sched)

  abbrev conclude : ℕ → ℕ → Attempt → SelectStep
  conclude s timeout a =
      if is_open s a.world
      then select_wait s timeout a.world
      else done (ret_of (a.world.sel s).target) (set_target s none (wake a.served a.world))

  -- `chan_block_select_` up to its wait
  unfoldable pub block_select : ℕ → ℕ → World → SelectStep
  unfolding send_loop recv_loop select_wait
  block_select s timeout w = elim (send_loop s (w.sel s).wchan_count 0 none w) [
    | none ↦ aborted
    | some a ↦
        let sl = a.world.sel s in
        if is_open s a.world
        then conclude s timeout (recv_loop s sl.rchan_count sl.wchan_count a.served a.world)
        else conclude s timeout a
  ]

  -- and from the moment at which its thread `p` is resumed
  unfoldable pub block_select_resumed : ℕ → ℕ → ℕ → World → Ret × World
  block_select_resumed s p timeout w =
      let (woken, sched') = cond_wait_end (w.sel s).cond p timeout w.sched in
      let w' = record w { sched = sched' } in
      if woken
      then (ret_of (w'.sel s).target, set_target s none w')
      else if is_open s w'
      then (minus_two, sel_remove_all_chans s w')
      else (ret_of (w'.sel s).target, set_target s none w')

  abbrev pub set_up : ℕ → List ℕ → List ℕ → ℕ → ℕ → World → World
  set_up s chans msgs wcount rcount w =
      set_sel s
        (record (w.sel s) {
          chans = chans;
          msgs = msgs;
          wchan_count = wcount;
          rchan_count = rcount;
        })
        w

  -- `chan_send`, with the address of the selector on its stack
  unfoldable pub chan_send : ℕ → ℕ → ℕ → World → SelectStep
  unfolding chan_is_closed sel_init block_select
  chan_send s c v w =
      if chan_is_closed c w
      then done epipe w
      else block_select s forever (set_up s (c ∷ []) (v ∷ []) 1 0 (sel_init s w))

  unfoldable pub chan_send_noblock : ℕ → ℕ → ℕ → World → SelectStep
  unfolding chan_is_closed sel_init block_select
  chan_send_noblock s c v w =
      if chan_is_closed c w
      then done epipe w
      else block_select s 0 (set_up s (c ∷ []) (v ∷ []) 1 0 (sel_init s w))

  -- `chan_recv`; `out` is what `*data` holds before. The message ends up in the selector.
  unfoldable pub chan_recv : ℕ → ℕ → ℕ → World → SelectStep
  unfolding sel_init block_select
  chan_recv s c out w = block_select s forever (set_up s (c ∷ []) (out ∷ []) 0 1 (sel_init s w))

  unfoldable pub chan_select : ℕ → List ℕ → List ℕ → ℕ → ℕ → ℕ → World → SelectStep
  unfolding block_select
  chan_select s chans msgs wcount rcount timeout w =
      block_select s timeout (set_up s chans msgs wcount rcount w)
