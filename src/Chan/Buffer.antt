-- ===== src/Chan/Buffer.antt =====
-- A buffered channel of src/chan.c on which nobody waits, over the circular buffer of src/fifo.c.
use lthread.Base.{
  ℕ, ◌<◌, ◌≤◌, ◌≡◌, refl, ap, ◌∙◌, true, false, none, some, [], if◌then◌else◌, arith,
}
use lthread.Rb.{RbTree}
use lthread.Fifo.{Queue, queue_add, queue_remove}
use lthread.Chan.State.{World, set_chan, set_target, set_msg, msg, chan_at}
use lthread.Chan.Try.{
  is_open, has_room, has_items, recv_closed, buffer_recv, finish, buffer_send, put, take_msg,
  find_open, first_open, try_send, try_recv,
}
use lthread.Chan.Select.{done, chosen, minus_one, block_select, send_loop, recv_loop, select_wait}

module _ ⦃T : RbTree⦄ where
  -- An open channel with the buffer `q`, where nobody waits.
  pub record Buffers (c : ℕ) (q : Queue) (w : World) : Type 0 where
    pub queue : (w.chan c).queue ≡ some q
    pub opened : (w.chan c).closed ≡ false
    pub no_sender : (w.chan c).sendq ≡ []
    pub no_receiver : (w.chan c).recvq ≡ []

  -- the world after a message went into the buffer for the selector `s`
  abbrev pub buffered : ℕ → ℕ → Queue → ℕ → World → World
  buffered s c q v w =
      set_target s (some 0) (set_chan c (record (w.chan c) { queue = some (queue_add q v).1 }) w)

  put-some :
      (c v : ℕ) (q : Queue) (w : World)
      → (w.chan c).queue ≡ some q
      → put c v w ≡ set_chan c (record (w.chan c) { queue = some (queue_add q v).1 }) w
  put-some c v q w e = rw (put, e) refl

  buffer_send_room :
      (s c : ℕ) (q : Queue) (w : World)
      → Buffers c q w
      → q.size < q.capacity
      → buffer_send s c 0 w ≡ buffered s c q (msg s 0 w) w
  buffer_send_room s c q w b room =
      let can : has_room (w.chan c).queue ≡ true = ground (arith, b.queue) in
      rw (can) (ap (λ x. set_target s (some 0) x) (put-some c (msg s 0 w) q w b.queue))

  finish-buffered :
      (s c : ℕ) (q : Queue) (v : ℕ) (w : World)
      → finish s (none, buffered s c q v w)
        ≡ record { hit = true; served = none; world = buffered s c q v w }
  finish-buffered s c q v w =
      let target_ : is_open s (buffered s c q v w) ≡ false = ground arith in
      ap
        (λ h. record { hit = if h then false else true; served = none; world = buffered s c q v w })
        target_

  try_send_alone :
      (s c : ℕ) (w : World)
      → (w.chan c).closed ≡ false
      → ((buffer_send s c 0 w).chan c).recvq ≡ []
      → try_send s c 0 w ≡ some (finish s (none, buffer_send s c 0 w))
  unfolding try_send find_open
  try_send_alone s c w opened_ nobody = rw (try_send, opened_, nobody) refl

  pub try_send_room :
      (s c : ℕ) (q : Queue) (w : World)
      → Buffers c q w
      → q.size < q.capacity
      → try_send s c 0 w
        ≡ some (record { hit = true; served = none; world = buffered s c q (msg s 0 w) w })
  try_send_room s c q w b room =
      let stored = buffer_send_room s c q w b room in
      let nobody : ((buffered s c q (msg s 0 w) w).chan c).recvq ≡ [] =
        ground (arith, b.no_receiver) in
      try_send_alone s c w b.opened (ap (λ (x : World). (x.chan c).recvq) stored ∙ nobody)
      ∙ ap (λ x. some (finish s (none, x))) stored
      ∙ ap some (finish-buffered s c q (msg s 0 w) w)

  pub try_send_full :
      (s c : ℕ) (q : Queue) (w : World)
      → Buffers c q w
      → q.capacity ≤ q.size
      → (w.sel s).target ≡ none
      → try_send s c 0 w ≡ some (record { hit = false; served = none; world = w })
  unfolding try_send find_open
  try_send_full s c q w b full idle = ground (arith, b.queue, b.opened, b.no_receiver)

  -- the world after the selector `s` has the first message of the buffer
  abbrev pub drained : ℕ → ℕ → Queue → World → World
  drained s c q w = set_target s (some 0) (
      set_msg s 0 (queue_remove q).0
        (set_chan c (record (w.chan c) { queue = some (queue_remove q).1 }) w))

  take_some :
      (s c : ℕ) (q : Queue) (w : World)
      → (w.chan c).queue ≡ some q
      → take_msg c s 0 w
        ≡ set_msg s 0
            (queue_remove q).0
            (set_chan c (record (w.chan c) { queue = some (queue_remove q).1 }) w)
  take_some s c q w e = rw (take_msg, e) refl

  buffer_recv_items :
      (s c : ℕ) (q : Queue) (w : World)
      → Buffers c q w
      → 0 < q.size
      → buffer_recv s c 0 w ≡ drained s c q w
  buffer_recv_items s c q w b some_ =
      let can : has_items (w.chan c).queue ≡ true = ground (arith, b.queue) in
      rw (can) (ap (λ x. set_target s (some 0) x) (take_some s c q w b.queue))

  finish-drained :
      (s c : ℕ) (q : Queue) (w : World)
      → recv_closed s c 0 (finish s (none, drained s c q w))
        ≡ record { hit = true; served = none; world = drained s c q w }
  finish-drained s c q w =
      let target_ : is_open s (drained s c q w) ≡ false = ground arith in
      ap
        (λ h.
          recv_closed s c 0
            (record { hit = if h then false else true; served = none; world = drained s c q w }))
        target_

  try_recv_alone :
      (s c : ℕ) (w : World)
      → ((buffer_recv s c 0 w).chan c).sendq ≡ []
      → try_recv s c 0 w ≡ recv_closed s c 0 (finish s (none, buffer_recv s c 0 w))
  unfolding try_recv first_open
  try_recv_alone s c w nobody = rw (try_recv, nobody) refl

  pub try_recv_items :
      (s c : ℕ) (q : Queue) (w : World)
      → Buffers c q w
      → 0 < q.size
      → try_recv s c 0 w ≡ record { hit = true; served = none; world = drained s c q w }
  try_recv_items s c q w b some_ =
      let got = buffer_recv_items s c q w b some_ in
      let nobody : ((drained s c q w).chan c).sendq ≡ [] = ground (arith, b.no_sender) in
      try_recv_alone s c w (ap (λ (x : World). (x.chan c).sendq) got ∙ nobody)
      ∙ ap (λ x. recv_closed s c 0 (finish s (none, x))) got
      ∙ finish-drained s c q w

  pub try_recv_empty :
      (s c : ℕ) (q : Queue) (w : World)
      → Buffers c q w
      → q.size ≡ 0
      → (w.sel s).target ≡ none
      → try_recv s c 0 w ≡ record { hit = false; served = none; world = w }
  unfolding try_recv first_open
  try_recv_empty s c q w b none_ idle = ground (arith, b.queue, b.opened, b.no_sender)

  pub block_select_sent :
      (s t : ℕ) (w a : World)
      → (w.sel s).wchan_count ≡ 1
      → try_send s (chan_at s 0 w) 0 w ≡ some (record { hit = true; served = none; world = a })
      → (a.sel s).target ≡ some 0
      → block_select s t w ≡ done (chosen 0) (set_target s none a)
  unfolding block_select send_loop
  block_select_sent s t w a one sent_ target_ =
      rw (block_select, one, send_loop, sent_, target_) refl

  pub block_select_full :
      (s : ℕ) (w : World)
      → (w.sel s).wchan_count ≡ 1
      → (w.sel s).rchan_count ≡ 0
      → (w.sel s).target ≡ none
      → try_send s (chan_at s 0 w) 0 w ≡ some (record { hit = false; served = none; world = w })
      → block_select s 0 w ≡ done minus_one w
  unfolding block_select send_loop recv_loop select_wait
  block_select_full s w one zero_ target_ full =
      rw (block_select, one, send_loop, full, target_, zero_, recv_loop, target_, select_wait) refl

  pub block_select_received :
      (s t : ℕ) (w a : World)
      → (w.sel s).wchan_count ≡ 0
      → (w.sel s).rchan_count ≡ 1
      → (w.sel s).target ≡ none
      → try_recv s (chan_at s 0 w) 0 w ≡ record { hit = true; served = none; world = a }
      → (a.sel s).target ≡ some 0
      → block_select s t w ≡ done (chosen 0) (set_target s none a)
  unfolding block_select send_loop recv_loop
  block_select_received s t w a none_ one idle got target_ =
      rw (block_select, none_, send_loop, idle, none_, one, recv_loop, got, target_) refl

  no_sends :
      (s : ℕ) (w : World)
      → (w.sel s).wchan_count ≡ 0
      → send_loop s (w.sel s).wchan_count 0 none w
        ≡ some (record { hit = false; served = none; world = w })
  unfolding send_loop
  no_sends s w none_ = rw (none_) refl

  one_receive :
      (s : ℕ) (w : World)
      → (w.sel s).wchan_count ≡ 0
      → (w.sel s).rchan_count ≡ 1
      → try_recv s (chan_at s 0 w) 0 w ≡ record { hit = false; served = none; world = w }
      → recv_loop s (w.sel s).rchan_count (w.sel s).wchan_count none w
        ≡ record { hit = false; served = none; world = w }
  unfolding recv_loop
  one_receive s w none_ one missed = rw (one, none_, recv_loop, missed) refl

  pub block_select_waits :
      (s t : ℕ) (w : World)
      → (w.sel s).wchan_count ≡ 0
      → (w.sel s).rchan_count ≡ 1
      → (w.sel s).target ≡ none
      → try_recv s (chan_at s 0 w) 0 w ≡ record { hit = false; served = none; world = w }
      → block_select s t w ≡ select_wait s t w
  unfolding block_select
  block_select_waits s t w none_ one idle missed =
      rw (block_select, no_sends s w none_, idle, one_receive s w none_ one missed, idle) refl
