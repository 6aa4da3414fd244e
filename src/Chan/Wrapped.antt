-- ===== src/Chan/Wrapped.antt =====
-- The wrappers of the typed operations of src/chan.c.
use lthread.Base.{
  ℕ, zero, suc, ap, ==_eq, ==_ne, ==_refl, update, ◌≡◌, ◌≢◌, ◌⊎◌, refl, Bool-cases, inl, inr, arith,
  some, true, false, List, [], ◌∷◌, ◌==◌,
}
use lthread.Rb.{RbTree}
use lthread.Chan.State.{World}
use lthread.Chan.Select.{
  SelectStep, aborted, overrun, done, blocks, chan_send, chosen, minus_one, epipe, minus_two,
}
use lthread.Chan.Typed.{
  Heap, TypedStep, typed_done, typed_blocks, typed_aborted, first_cells, wrap_step, chan_send_buf,
  chan_recv_buf,
}

module _ ⦃T : RbTree⦄ where
  -- The block `a` holds the first bytes of a message.
  abbrev pub Carries : ℕ → List ℕ → Heap → Type 0
  Carries a bytes h = (h.block a ≡ bytes) × (h.is_freed a ≡ false)

  -- Its receiver gets the bytes, and frees the block.
  abbrev pub Arrives : ℕ → ℕ → List ℕ → Heap → Type 0
  Arrives a size bytes h =
      ((chan_recv_buf size a h).0 ≡ some (first_cells size bytes))
      × ((chan_recv_buf size a h).1.is_freed a ≡ true)

  abbrev pub Wrapped : ℕ → ℕ → List ℕ → TypedStep → Type 0
  Wrapped a size bytes typed_aborted = Unit
  Wrapped a size bytes (typed_blocks h w) = (h.is_freed a ≡ false) × Arrives a size bytes h
  Wrapped a size bytes (typed_done r h w) =
      ((r ≡ chosen 0) × (h.is_freed a ≡ false) × Arrives a size bytes h)
      ⊎ ((r ≢ chosen 0) × (h.is_freed a ≡ true))

  first_cells_twice : (n : ℕ) (xs : List ℕ) → first_cells n (first_cells n xs) ≡ first_cells n xs
  first_cells_twice zero xs = refl
  first_cells_twice (suc n) [] = refl
  first_cells_twice (suc n) (x ∷ xs) = ap (λ l. x ∷ l) (first_cells_twice n xs)

  wrap_step-Wrapped :
      (a size : ℕ) (bytes : List ℕ) (h : Heap) (o : SelectStep)
      → h.is_freed a ≡ false
      → Arrives a size bytes h
      → Wrapped a size bytes (wrap_step a h o)
  wrap_step-Wrapped a size bytes h aborted live arrives = tt
  wrap_step-Wrapped a size bytes h overrun live arrives = tt
  wrap_step-Wrapped a size bytes h (blocks w) live arrives = (live, arrives)
  wrap_step-Wrapped a size bytes h (done (chosen i) w) live arrives = elim (Bool-cases (i == 0)) [
    | inl z ↦ rw z (inl (ap chosen (==_eq i 0 z), live, arrives))
    | inr n ↦ rw n (inr (λ e. grind (arith, e, n), ground arith))
  ]
  wrap_step-Wrapped a size bytes h (done minus_one w) live arrives = inr (λ e. cc, ground arith)
  wrap_step-Wrapped a size bytes h (done minus_two w) live arrives = inr (λ e. cc, ground arith)
  wrap_step-Wrapped a size bytes h (done epipe w) live arrives = inr (λ e. cc, ground arith)

  written-Arrives :
      (a size : ℕ) (bytes : List ℕ) (h : Heap)
      → a ≢ 0
      → Arrives a size bytes (record {
        block = update h.block a (first_cells size bytes);
        is_freed = update h.is_freed a false;
      })
  unfolding chan_recv_buf
  written-Arrives a size bytes h ne =
      rw (==_ne a 0 ne, ==_refl a) (ap some (first_cells_twice size bytes), refl)

  -- Once the wrapper of a message is allocated, chan_send_buf either returns 0 or blocks with the
  -- wrapper in the heap, and a chan_recv_buf of the same size that gets the wrapper then copies the
  -- bytes sent and frees it; or it returns something else and has freed the wrapper; or an
  -- assertion fails.
  pub chan_send_buf-Wrapped :
      (a s c size : ℕ) (bytes : List ℕ) (h : Heap) (w : World)
      → a ≢ 0
      → Wrapped a size bytes (chan_send_buf (some a) s c bytes size h w)
  unfolding chan_send_buf
  chan_send_buf-Wrapped a s c size bytes h w ne =
      wrap_step-Wrapped a size bytes _ (chan_send s c a w) (ground arith)
        (written-Arrives a size bytes h ne)
