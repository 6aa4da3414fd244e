-- ===== src/Chan/Try.antt =====
-- One attempt to send or to receive on a channel: `chan_try_send`, `chan_try_recv` and
-- `sel_remove_all_chans` of src/chan.c.
use lthread.Base.{
  ℕ, zero, suc, ◌+◌, ◌-◌, Bool, true, false, Option, none, some, List, [], ◌∷◌, ltb, if◌then◌else◌,
}
use lthread.Rb.{RbTree}
use lthread.Fifo.{Queue, queue_add, queue_remove}
use lthread.Chan.State.{Wait, remove_wait, World, set_chan, set_target, set_msg, msg, chan_at}

abbrev pub is_none : {A : Type 0} → Option A → Bool
is_none none = true
is_none (some a) = false

module _ ⦃T : RbTree⦄ where
  -- The two loops of `sel_remove_all_chans`: `n` rounds from the index `i` on.
  unfoldable pub leave_sendqs : ℕ → ℕ → ℕ → World → World
  leave_sendqs s zero i w = w
  leave_sendqs s (suc n) i w =
      let c = chan_at s i w in
      leave_sendqs s n (i + 1) (
        set_chan c
          (record (w.chan c) {
            sendq = remove_wait (record { sel = s; idx = i }) (w.chan c).sendq;
            send_count = (w.chan c).send_count - 1;
          })
          w)

  unfoldable pub leave_recvqs : ℕ → ℕ → ℕ → World → World
  leave_recvqs s zero i w = w
  leave_recvqs s (suc n) i w =
      let c = chan_at s i w in
      leave_recvqs s n (i + 1) (
        set_chan c
          (record (w.chan c) {
            recvq = remove_wait (record { sel = s; idx = i }) (w.chan c).recvq;
            recv_count = (w.chan c).recv_count - 1;
          })
          w)

  unfoldable pub sel_remove_all_chans : ℕ → World → World
  unfolding leave_sendqs leave_recvqs
  sel_remove_all_chans s w =
      leave_recvqs s (w.sel s).rchan_count (w.sel s).wchan_count
        (leave_sendqs s (w.sel s).wchan_count 0 w)

  -- A selector that no other thread has served yet.
  abbrev pub is_open : ℕ → World → Bool
  is_open s w = is_none (w.sel s).target

  -- The loop of `chan_try_send`: the first entry whose selector is open.
  unfoldable pub find_open : List Wait → World → Option Wait
  find_open [] w = none
  find_open (x ∷ xs) w = if is_open x.sel w then some x else find_open xs w

  -- The loop of `chan_try_recv` looks at the first entry only.
  unfoldable pub first_open : List Wait → World → Option Wait
  first_open [] w = none
  first_open (x ∷ xs) w = if is_open x.sel w then some x else none

  -- The selector of the entry that was found is served, unless the attempt was its own.
  unfoldable pub serve : Wait → World → Option Wait × World
  unfolding sel_remove_all_chans
  serve x w =
      if is_open x.sel w
      then (some x, set_target x.sel (some x.idx) (sel_remove_all_chans x.sel w))
      else (none, w)

  -- what an attempt returns: whether it served its own selector, and the entry that it served
  pub record Attempt : Type 0 where
    pub hit : Bool
    pub served : Option Wait
    pub world : World

  abbrev pub has_room : Option Queue → Bool
  has_room none = false
  has_room (some q) = ltb q.size q.capacity

  abbrev pub has_items : Option Queue → Bool
  has_items none = false
  has_items (some q) = ltb 0 q.size

  -- queue_add(chan->queue, value)
  abbrev pub put : ℕ → ℕ → World → World
  put c v w = elim (w.chan c).queue [
    | none ↦ w
    | some q ↦ set_chan c (record (w.chan c) { queue = some (queue_add q v).1 }) w
  ]

  -- sel->msgs[i] = queue_remove(chan->queue)
  abbrev pub take_msg : ℕ → ℕ → ℕ → World → World
  take_msg c s i w = elim (w.chan c).queue [
    | none ↦ w
    | some q ↦
        set_msg s i (queue_remove q).0
          (set_chan c (record (w.chan c) { queue = some (queue_remove q).1 }) w)
  ]

  abbrev pub finish : ℕ → Option Wait × World → Attempt
  finish s (x, w) = record { hit = if is_open s w then false else true; served = x; world = w }

  abbrev pub buffer_send : ℕ → ℕ → ℕ → World → World
  buffer_send s c i w =
      if has_room (w.chan c).queue then set_target s (some i) (put c (msg s i w) w) else w

  abbrev pub hand_to : Bool → ℕ → ℕ → ℕ → Wait → World → World
  hand_to buffered s c i x w =
      if buffered
      then take_msg c x.sel x.idx w
      else set_target s (some i) (set_msg x.sel x.idx (msg s i w) w)

  -- `chan_try_send`; none where the assertion that the channel is open fails. The message of the
  -- selector `s` for its index `i` goes into the buffer or to a waiting receiver.
  unfoldable pub try_send : ℕ → ℕ → ℕ → World → Option Attempt
  unfolding find_open serve
  try_send s c i w =
      if (w.chan c).closed
      then none
      else let buffered = has_room (w.chan c).queue in
        let w' = buffer_send s c i w in
        elim (find_open (w'.chan c).recvq w') [
          | none ↦ some (finish s (none, w'))
          | some x ↦ some (finish s (serve x (hand_to buffered s c i x w')))
        ]

  abbrev pub buffer_recv : ℕ → ℕ → ℕ → World → World
  buffer_recv s c i w =
      if has_items (w.chan c).queue then set_target s (some i) (take_msg c s i w) else w

  abbrev pub take_from : Bool → ℕ → ℕ → ℕ → Wait → World → World
  take_from buffered s c i x w =
      if buffered
      then put c (msg x.sel x.idx w) w
      else set_target s (some i) (set_msg s i (msg x.sel x.idx w) w)

  -- A closed channel yields NULL when nothing else came.
  abbrev pub recv_closed : ℕ → ℕ → ℕ → Attempt → Attempt
  recv_closed s c i a =
      if a.hit
      then a
      else if (a.world.chan c).closed
      then record {
        hit = true;
        served = a.served;
        world = set_target s (some i) (set_msg s i 0 a.world);
      }
      else a

  -- `chan_try_recv`
  unfoldable pub try_recv : ℕ → ℕ → ℕ → World → Attempt
  unfolding first_open serve
  try_recv s c i w =
      let buffered = has_items (w.chan c).queue in
      let w' = buffer_recv s c i w in
      elim (first_open (w'.chan c).sendq w') [
        | none ↦ recv_closed s c i (finish s (none, w'))
        | some x ↦ recv_closed s c i (finish s (serve x (take_from buffered s c i x w')))
      ]
