-- ===== src/Chan/Typed.antt =====
-- The typed operations of a channel in src/chan.c: `chan_send_int32`, `chan_send_int64`,
-- `chan_send_double` and `chan_send_buf`, and the receiving ones.
use mathlib.Core.Option
use lthread.Base.{
  ℕ, zero, suc, List, [], ◌∷◌, Bool, true, false, Option, none, some, ◌==◌, if◌then◌else◌, update,
}
use lthread.Rb.{RbTree}
use lthread.Chan.State.{World}
use lthread.Chan.Select.{
  Ret, chosen, minus_one, SelectStep, aborted, overrun, done, blocks, chan_send,
}

-- The blocks that messages are wrapped in: their contents by address, one cell for a number and one
-- for each byte of a buffer, and which of them were freed.
pub record Heap : Type 0 where
  pub block : ℕ → List ℕ
  pub is_freed : ℕ → Bool

-- the first cells of a block, as memcpy copies them
abbrev pub first_cells : ℕ → List ℕ → List ℕ
first_cells zero xs = []
first_cells (suc n) [] = []
first_cells (suc n) (x ∷ xs) = x ∷ first_cells n xs

abbrev pub free_block : ℕ → Heap → Heap
free_block a h = record h { is_freed = update h.is_freed a true }

abbrev pub is_zero_ret : Ret → Bool
is_zero_ret (chosen i) = i == 0
is_zero_ret _ = false

module _ ⦃T : RbTree⦄ where
  -- What a typed operation does: it returns, it blocks in its select with the wrapper in the heap,
  -- or an assertion fails.
  pub data TypedStep : Type 0 where
    typed_aborted : TypedStep
    typed_done : Ret → Heap → World → TypedStep
    typed_blocks : Heap → World → TypedStep

  -- A wrapper that was not sent is freed. A select of one channel writes behind no array.
  abbrev pub send_returns : ℕ → Ret → Heap → Heap
  send_returns a r h = if is_zero_ret r then h else free_block a h

  abbrev pub wrap_step : ℕ → Heap → SelectStep → TypedStep
  wrap_step a h aborted = typed_aborted
  wrap_step a h overrun = typed_aborted
  wrap_step a h (done r w) = typed_done r (send_returns a r h) w
  wrap_step a h (blocks w) = typed_blocks h w

  -- `chan_send_int32` and the like up to the wait: `a` is what malloc returns.
  unfoldable pub typed_send : Option ℕ → ℕ → ℕ → List ℕ → Heap → World → TypedStep
  unfolding chan_send
  typed_send none s c v h w = typed_done minus_one h w
  typed_send (some a) s c v h w =
      let h' : Heap = record { block = update h.block a v; is_freed = update h.is_freed a false } in
      wrap_step a h' (chan_send s c a w)

  -- `chan_recv_int32` and the like once their select has returned with the pointer `wrapped`: what
  -- `*data` is set to, if it is written, and the heap.
  unfoldable pub unwrap : ℕ → Heap → Option (List ℕ) × Heap
  unwrap wrapped h =
      if wrapped == 0 then (none, h) else (some (h.block wrapped), free_block wrapped h)

  unfoldable pub chan_send_int32 : Option ℕ → ℕ → ℕ → ℕ → Heap → World → TypedStep
  unfolding typed_send
  chan_send_int32 block s c v = typed_send block s c (v ∷ [])

  unfoldable pub chan_send_int64 : Option ℕ → ℕ → ℕ → ℕ → Heap → World → TypedStep
  unfolding typed_send
  chan_send_int64 block s c v = typed_send block s c (v ∷ [])

  unfoldable pub chan_send_double : Option ℕ → ℕ → ℕ → ℕ → Heap → World → TypedStep
  unfolding typed_send
  chan_send_double block s c v = typed_send block s c (v ∷ [])

  unfoldable pub chan_send_buf : Option ℕ → ℕ → ℕ → List ℕ → ℕ → Heap → World → TypedStep
  unfolding typed_send
  chan_send_buf block s c bytes size = typed_send block s c (first_cells size bytes)

  abbrev pub number : Option (List ℕ) → Option ℕ
  number none = none
  number (some []) = none
  number (some (v ∷ vs)) = some v

  unfoldable pub chan_recv_int32 : ℕ → Heap → Option ℕ × Heap
  unfolding unwrap
  chan_recv_int32 wrapped h = let (d, h') = unwrap wrapped h in (number d, h')

  unfoldable pub chan_recv_int64 : ℕ → Heap → Option ℕ × Heap
  unfolding unwrap
  chan_recv_int64 wrapped h = let (d, h') = unwrap wrapped h in (number d, h')

  unfoldable pub chan_recv_double : ℕ → Heap → Option ℕ × Heap
  unfolding unwrap
  chan_recv_double wrapped h = let (d, h') = unwrap wrapped h in (number d, h')

  unfoldable pub chan_recv_buf : ℕ → ℕ → Heap → Option (List ℕ) × Heap
  unfolding unwrap
  chan_recv_buf size wrapped h =
      let (d, h') = unwrap wrapped h in (Option.map (first_cells size) d, h')
