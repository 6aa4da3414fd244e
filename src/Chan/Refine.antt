-- ===== src/Chan/Refine.antt =====
-- A buffered channel of src/chan.c, used by one client that sends without blocking and receives,
-- and a bounded sequence of messages.
use lthread.Base.{
  ℕ, ◌<◌, ◌≡◌, refl, ap, sym, ◌∙◌, Bool, true, false, Bool-cases, inl, inr, List, [], ◌∷◌, ◌++◌,
  leb, if◌then◌else◌, length, arith,
}
use lthread.Rb.{RbTree}
use lthread.Fifo.{Queue, queue_add, queue_remove}
use lthread.Fifo.Bounds.{
  IsValid, queue_add-IsValid, queue_remove-IsValid, capacity-queue_add, capacity-queue_remove,
}
use lthread.Fifo.Refine.{contents, length-contents, queue_add_refines, queue_remove_refines}
use lthread.Fifo.Spec
use lthread.Chan.State.{World, msg}
use lthread.Chan.Select.{
  SelectStep, aborted, overrun, done, blocks, chosen, minus_one, epipe, minus_two,
  chan_send_noblock, chan_recv,
}
use lthread.Chan.Buffer.{Buffers}
use lthread.Chan.Stream.{Stalls, send_room, send_full, receive_some, receive_none}

pub data ChanOp : Type 0 where
  offer : ℕ → ChanOp
  take : ChanOp

-- what the client sees: a receive that does not return, or fails, ends its run
pub data ChanReply : Type 0 where
  sent full failed stalled : ChanReply
  received : ℕ → ChanReply

-- The bounded sequence: an offer appends unless there are `cap` messages, and a take gets the first.
unfoldable pub stream : ℕ → List ℕ → List ChanOp → List ChanReply
stream cap xs [] = []
stream cap xs (offer v ∷ ops) =
    let kept = stream cap (xs ++ v ∷ []) ops in
    let dropped = stream cap xs ops in if leb cap (length xs) then full ∷ dropped else sent ∷ kept
stream cap [] (take ∷ ops) = stalled ∷ []
stream cap (x ∷ xs) (take ∷ ops) = received x ∷ stream cap xs ops

stream_full :
    (cap v : ℕ) (xs : List ℕ) (ops : List ChanOp)
    → leb cap (length xs) ≡ true
    → stream cap xs (offer v ∷ ops) ≡ full ∷ stream cap xs ops
unfolding stream
stream_full cap v xs ops h = rw (stream, h) refl

stream_room :
    (cap v : ℕ) (xs : List ℕ) (ops : List ChanOp)
    → leb cap (length xs) ≡ false
    → stream cap xs (offer v ∷ ops) ≡ sent ∷ stream cap (xs ++ v ∷ []) ops
unfolding stream
stream_room cap v xs ops h = rw (stream, h) refl

contents_added :
    (q : Queue) (x : ℕ)
    → IsValid q
    → leb q.capacity (length (contents q)) ≡ false
    → contents (queue_add q x).1 ≡ contents q ++ x ∷ []
unfolding Spec.add
contents_added q x v h =
    let kept : Spec.add q.capacity (contents q) x ≡ (true, contents q ++ x ∷ []) =
      rw (Spec.add, h) refl in
    ap (λ (r : Bool × List ℕ). r.1) (queue_add_refines q x v ∙ kept)

first_removed : (xs ys : List ℕ) (y : ℕ) → 0 < length xs → (y, ys) ≡ Spec.remove xs → xs ≡ y ∷ ys
unfolding Spec.remove
first_removed [] ys y h e = absurd (omega (arith, h))
first_removed (x ∷ xs) ys y h e = sym (ap (λ (r : ℕ × List ℕ). r.0 ∷ r.1) e)

contents_removed :
    (q : Queue)
    → IsValid q
    → 0 < q.size
    → contents q ≡ (queue_remove q).0 ∷ contents (queue_remove q).1
contents_removed q v h =
    first_removed (contents q) (contents (queue_remove q).1) (queue_remove q).0
      (ground (arith, length-contents q)) (queue_remove_refines q v)

none_left : (xs : List ℕ) → length xs ≡ 0 → xs ≡ []
none_left [] h = refl
none_left (x ∷ xs) h = absurd (omega (arith, h))

contents_empty : (q : Queue) → q.size ≡ 0 → contents q ≡ []
contents_empty q h = none_left (contents q) (length-contents q ∙ h)

module _ ⦃T : RbTree⦄ where
  module _ (s c : ℕ) where
    abbrev pub on_offer : SelectStep → (World → List ChanReply) → List ChanReply
    on_offer (done (chosen n) w) next = sent ∷ next w
    on_offer (done minus_one w) next = full ∷ next w
    on_offer (done epipe w) next = failed ∷ next w
    on_offer (done minus_two w) next = failed ∷ next w
    on_offer aborted next = stalled ∷ []
    on_offer overrun next = failed ∷ []
    on_offer (blocks w) next = stalled ∷ []

    abbrev pub on_take : SelectStep → (World → List ChanReply) → List ChanReply
    on_take (done (chosen n) w) next = received (msg s 0 w) ∷ next w
    on_take (done minus_one w) next = failed ∷ next w
    on_take (done epipe w) next = failed ∷ next w
    on_take (done minus_two w) next = failed ∷ next w
    on_take aborted next = stalled ∷ []
    on_take overrun next = failed ∷ []
    on_take (blocks w) next = stalled ∷ []

    -- A client's calls on the channel `c`, with the selector `s` on its stack.
    unfoldable pub run_chan : World → List ChanOp → List ChanReply
    run_chan w [] = []
    run_chan w (offer v ∷ ops) = on_offer (chan_send_noblock s c v w) λ w'. run_chan w' ops
    run_chan w (take ∷ ops) = on_take (chan_recv s c 0 w) λ w'. run_chan w' ops

    on_take-Stalls :
        (step : SelectStep) (next : World → List ChanReply)
        → Stalls step
        → on_take step next ≡ stalled ∷ []
    on_take-Stalls aborted next h = refl
    on_take-Stalls (blocks w) next h = refl
    on_take-Stalls (done r w) next h = elim h [ ]
    on_take-Stalls overrun next h = elim h [ ]

    -- Let nobody wait on an open channel with a valid buffer. Then a client that calls
    -- chan_send_noblock and chan_recv on it in any order sees what a bounded sequence of the
    -- messages in the buffer shows: a send appends, or returns -1 when it is full, a receive gets
    -- the oldest message, and one from an empty channel does not return at once, which ends the
    -- run.
    pub run_chan_refines :
        (q : Queue) (w : World) (ops : List ChanOp)
        → IsValid q
        → Buffers c q w
        → run_chan w ops ≡ stream q.capacity (contents q) ops
    unfolding run_chan stream
    run_chan_refines q w [] v b = refl
    run_chan_refines q w (offer x ∷ ops) v b =
        elim (Bool-cases (leb q.capacity (length (contents q)))) [
          | inl full_ ↦
              let (w', step, b') = send_full s c x q w b (ground (arith, length-contents q)) in
              ap (λ r. on_offer r (λ u. run_chan u ops)) step
              ∙ ap (λ l. full ∷ l) (run_chan_refines q w' ops v b')
              ∙ sym (stream_full q.capacity x (contents q) ops full_)
          | inr room ↦
              let (w', step, b') = send_room s c x q w b (ground (arith, length-contents q)) in
              ap (λ r. on_offer r (λ u. run_chan u ops)) step
              ∙ ap (λ l. sent ∷ l)
                  (run_chan_refines (queue_add q x).1 w' ops (queue_add-IsValid q x v) b'
                    ∙ ap (λ n. stream n (contents (queue_add q x).1) ops) (capacity-queue_add q x)
                    ∙ ap (λ l. stream q.capacity l ops) (contents_added q x v room))
              ∙ sym (stream_room q.capacity x (contents q) ops room)
        ]
    run_chan_refines q w (take ∷ ops) v b = elim (Bool-cases (leb q.size 0)) [
      | inl empty ↦
          on_take-Stalls (chan_recv s c 0 w) (λ u. run_chan u ops)
            (receive_none s c 0 q w b (ground arith))
          ∙ sym (ap (λ l. stream q.capacity l (take ∷ ops)) (contents_empty q (ground arith)))
      | inr some_ ↦
          let (w', step, got, b') = receive_some s c 0 q w b (ground arith) in
          ap (λ r. on_take r (λ u. run_chan u ops)) step
          ∙ ap (λ m. received m ∷ run_chan w' ops) got
          ∙ ap (λ l. received (queue_remove q).0 ∷ l)
              (run_chan_refines (queue_remove q).1 w' ops (queue_remove-IsValid q v) b'
                ∙ ap (λ n. stream n (contents (queue_remove q).1) ops) (capacity-queue_remove q))
          ∙ sym (ap (λ l. stream q.capacity l (take ∷ ops)) (contents_removed q v (ground arith)))
    ]
