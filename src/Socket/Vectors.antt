-- ===== src/Socket/Vectors.antt =====
-- The vector of `lthread_writev` in src/lthread_socket.c.
use lthread.Base.{
  ℕ, zero, suc, ◌+◌, ◌-◌, ◌≤◌, ◌≡◌, refl, sym, ap, ◌∙◌, Bool-cases, inl, inr, arith, ltb, List, [],
  ◌∷◌, ◌++◌,
}
use lthread.Rb.{RbTree}
use lthread.Sched.State.{Sched}
use lthread.Socket.Wait.{Answer, returned_n, Result, count, renice_yield}
use lthread.Socket.Open.{Iovec, advance_iov, writev}

-- the byte addresses that a vector covers, in the order in which they are written
abbrev pub addresses : ℕ → ℕ → List ℕ
addresses base zero = []
addresses base (suc n) = base ∷ addresses (base + 1) n

abbrev pub iov_bytes : List Iovec → List ℕ
iov_bytes [] = []
iov_bytes (v ∷ vs) = addresses v.iov_base v.iov_len ++ iov_bytes vs

abbrev pub skip : ℕ → List ℕ → List ℕ
skip zero xs = xs
skip (suc n) [] = []
skip (suc n) (x ∷ xs) = skip n xs

skip_nil : (n : ℕ) → skip n [] ≡ []
skip_nil zero = refl
skip_nil (suc n) = refl

-- inside of a part
skip-addresses :
    (n m base : ℕ) (rest : List ℕ)
    → n ≤ m
    → skip n (addresses base m ++ rest) ≡ addresses (base + n) (m - n) ++ rest
skip-addresses zero m base rest le =
    ap (λ b. addresses b m ++ rest) {x = base} {y = base + 0} (omega arith)
    ∙ ap (λ l. addresses (base + 0) l ++ rest) {x = m} {y = m - 0} (omega arith)
skip-addresses (suc n) zero base rest le = absurd (omega (arith, le))
skip-addresses (suc n) (suc m) base rest le =
    skip-addresses n m (base + 1) rest (omega (arith, le))
    ∙ ap (λ b. addresses b (m - n) ++ rest) {x = base + 1 + n} {y = base + suc n} (omega arith)
    ∙ ap (λ l. addresses (base + suc n) l ++ rest) {x = m - n} {y = suc m - suc n} (omega arith)

-- past a part
skip_past-addresses :
    (n m base : ℕ) (rest : List ℕ) → m ≤ n → skip n (addresses base m ++ rest) ≡ skip (n - m) rest
skip_past-addresses n zero base rest le = ap (λ b. skip b rest) (omega arith)
skip_past-addresses zero (suc m) base rest le = absurd (omega (arith, le))
skip_past-addresses (suc n) (suc m) base rest le =
    skip_past-addresses n m (base + 1) rest (omega (arith, le))
    ∙ ap (λ b. skip b rest) {x = n - m} {y = suc n - suc m} (omega arith)

-- What lthread_writev still has to write after n more bytes were written is what it had to write,
-- less its first n bytes, in the same order.
pub advance_iov-bytes :
    (n : ℕ) (vs : List Iovec) → iov_bytes (advance_iov n vs) ≡ skip n (iov_bytes vs)
unfolding advance_iov
advance_iov-bytes zero [] = refl
advance_iov-bytes (suc n) [] = refl
advance_iov-bytes zero (v ∷ vs) = refl
advance_iov-bytes (suc n) (v ∷ vs) = elim (Bool-cases (ltb (suc n) v.iov_len)) [
  | inl part ↦
      rw part
        (sym (skip-addresses (suc n) v.iov_len v.iov_base (iov_bytes vs) (ground (arith, part))))
  | inr whole ↦ rw whole (
      advance_iov-bytes (suc n - v.iov_len) vs
      ∙ sym
          (skip_past-addresses (suc n) v.iov_len v.iov_base (iov_bytes vs) (ground (arith, whole))))
]

abbrev pub empty_tail : ℕ → ℕ → ℕ → List Iovec
empty_tail a n b =
    record { iov_base = a; iov_len = suc n } ∷ record { iov_base = b; iov_len = 0 } ∷ []

module _ ⦃T : RbTree⦄ {K : Type 0} (others : Sched → K → Sched × K) (p fd : ℕ) where
  module _ (call : List Iovec → K → Answer × K) (f total : ℕ) (vs : List Iovec) (s : Sched)
      (k : K) where
    abbrev s1 : Sched
    s1 = (renice_yield others p s k).0

    abbrev k1 : K
    k1 = (renice_yield others p s k).1

    writev_zero :
        {j : K}
        → call vs k1 ≡ (returned_n 0, j)
        → writev others p fd call (suc f) total vs s k ≡ (count 0, s1, j)
    unfolding writev
    writev_zero h = ground (arith, h)

    writev_part :
        {n : ℕ} {j : K} {v : Iovec} {rest : List Iovec}
        → call vs k1 ≡ (returned_n (suc n), j)
        → advance_iov (suc n) vs ≡ v ∷ rest
        → writev others p fd call (suc f) total vs s k
          ≡ writev others p fd call f (total + suc n) (v ∷ rest) s1 j
    unfolding writev
    writev_part h g = ground (arith, h, g)

  -- Let the last part of a vector be empty. When one call has written all bytes of the part before
  -- it, lthread_writev calls once more, for the empty part, and when that call answers 0, it
  -- returns 0 and not the number of bytes written.
  pub writev-empty_tail :
      (call : List Iovec → K → Answer × K) (f a n b : ℕ) (s : Sched) (k : K) {j j' : K}
      → call (empty_tail a n b) (renice_yield others p s k).1 ≡ (returned_n (suc n), j)
      → call
          (record { iov_base = b; iov_len = 0 } ∷ [])
          (renice_yield others p (renice_yield others p s k).0 j).1
        ≡ (returned_n 0, j')
      → (writev others p fd call (suc (suc f)) 0 (empty_tail a n b) s k).0 ≡ count 0
  unfolding advance_iov
  writev-empty_tail call f a n b s k {j} {j'} all none_left =
      let t = s1 call (suc f) 0 (empty_tail a n b) s k in
      let left : List Iovec = record { iov_base = b; iov_len = 0 } ∷ [] in
      ap (λ (r : Result × Sched × K). r.0)
        (writev_part call (suc f) 0 (empty_tail a n b) s k all (ground arith)
          ∙ writev_zero call f (0 + suc n) left t j none_left)
