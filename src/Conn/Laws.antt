-- ===== src/Conn/Laws.antt =====
-- The loops of src/mux/tcp_conn.c.
use lthread.Base.{
  ℕ, zero, suc, ◌+◌, ◌-◌, ◌≤◌, ◌<◌, ◌≡◌, ◌≢◌, ◌⊎◌, refl, sym, subst, true, false, Bool-cases, inl,
  inr, List, [], ◌++◌, length, length-append, ◌==◌, arith,
}
use lthread.Socket.Wait.{Result, count, minus_one, minus_two, assert_failed, no_fuel}
use lthread.Conn.{ConnOps, conn_read, readfull_loop, readfull}

-- What a read may answer to a request for `n` bytes: as many bytes as it says, and at most `n`.
abbrev pub ReadOk : ℕ → Result → List ℕ → Type 0
ReadOk n (count m) bytes = (length bytes ≡ m) × (m ≤ n)
ReadOk n no_fuel bytes = ⊥
ReadOk n _ bytes = Unit {0}

-- `len` bytes were received; or a read was not positive, and fewer were.
abbrev pub FullResult : ℕ → Result → List ℕ → Type 0
FullResult len (count n) buf = ((n ≡ len) × (length buf ≡ len)) ⊎ ((n ≡ 0) × (length buf < len))
FullResult len no_fuel buf = ⊥
FullResult len _ buf = length buf < len

-- a result that ends a loop over reads or writes
abbrev pub NoProgress : Result → Type 0
NoProgress r = (m : ℕ) → r ≢ count (suc m)

result_cases : (r : Result) → ((m : ℕ) × (r ≡ count (suc m))) ⊎ NoProgress r
result_cases (count zero) = inr (λ m e. absurd (grind (arith, e)))
result_cases (count (suc m)) = inl (m, refl)
result_cases minus_one = inr (λ m e. cc)
result_cases minus_two = inr (λ m e. cc)
result_cases assert_failed = inr (λ m e. cc)
result_cases no_fuel = inr (λ m e. cc)

part_arrived :
    (len n : ℕ) (r : Result) (buf bytes : List ℕ)
    → NoProgress r
    → ReadOk n r bytes
    → length buf < len
    → FullResult len r buf
part_arrived len n (count zero) buf bytes stop ok lt = inr (refl, lt)
part_arrived len n (count (suc m)) buf bytes stop ok lt = absurd (stop m refl)
part_arrived len n minus_one buf bytes stop ok lt = lt
part_arrived len n minus_two buf bytes stop ok lt = lt
part_arrived len n assert_failed buf bytes stop ok lt = lt
part_arrived len n no_fuel buf bytes stop ok lt = ok

module _ {W : Type 0} (ops : ConnOps W) where
  module _ (f len n : ℕ) (buf : List ℕ) (w : W) where
    full_done : n == 0 ≡ true → readfull_loop ops (suc f) len n buf w ≡ (count len, buf, w)
    unfolding readfull_loop
    full_done h = ground (arith, h)

    full_more :
        {m : ℕ}
        → n == 0 ≡ false
        → (conn_read ops n w).0 ≡ count (suc m)
        → readfull_loop ops (suc f) len n buf w
          ≡ readfull_loop ops f len (n - suc m) (buf ++ (conn_read ops n w).1) (conn_read ops n w).2
    unfolding readfull_loop
    full_more h g = ground (arith, h, g)

    full_stop :
        (r : Result)
        → n == 0 ≡ false
        → NoProgress r
        → (conn_read ops n w).0 ≡ r
        → readfull_loop ops (suc f) len n buf w ≡ (r, buf, (conn_read ops n w).2)
    unfolding readfull_loop
    full_stop (count zero) h stop g = ground (arith, h, g)
    full_stop (count (suc m)) h stop g = absurd (stop m refl)
    full_stop minus_one h stop g = ground (arith, h, g)
    full_stop minus_two h stop g = ground (arith, h, g)
    full_stop assert_failed h stop g = ground (arith, h, g)
    full_stop no_fuel h stop g = ground (arith, h, g)

  abbrev pub Full : ℕ → Result × List ℕ × W → Type 0
  Full len out = FullResult len out.0 out.1

  readfull_loop-FullResult :
      (f len n : ℕ) (buf : List ℕ) (w : W)
      → ((k : ℕ) (v : W) → ReadOk k (conn_read ops k v).0 (conn_read ops k v).1)
      → length buf + n ≡ len
      → n < f
      → Full len (readfull_loop ops f len n buf w)
  readfull_loop-FullResult zero len n buf w good sum enough = absurd (omega (arith, enough))
  readfull_loop-FullResult (suc f) len n buf w good sum enough = elim (Bool-cases (n == 0)) [
    | inl done ↦
        subst (Full len) (sym (full_done f len n buf w done))
          (inl (refl, ground (arith, sum, done)))
    | inr more ↦
        let bytes = (conn_read ops n w).1 in
        let short : length buf < len = ground (arith, sum, more) in
        elim (result_cases (conn_read ops n w).0) [
          | inl (m, g) ↦
              let ok = subst (λ (r : Result). ReadOk n r bytes) g (good n w) in
              subst (Full len) (sym (full_more f len n buf w more g)) (
                readfull_loop-FullResult f len (n - suc m) (buf ++ bytes) (conn_read ops n w).2 good
                  (omega (arith, ok, sum, length-append buf bytes)) (omega (arith, ok, enough)))
          | inr stop ↦
              subst (Full len) (sym (full_stop f len n buf w (conn_read ops n w).0 more stop refl))
                (part_arrived len n (conn_read ops n w).0 buf bytes stop (good n w) short)
        ]
  ]

  -- When each read of a connection returns at most the bytes it is asked for, net_conn_readfull
  -- ends, and it either received and returns the whole length, or it received less and returns 0 or
  -- an error.
  pub readfull-FullResult :
      (len : ℕ) (w : W)
      → ((k : ℕ) (v : W) → ReadOk k (conn_read ops k v).0 (conn_read ops k v).1)
      → FullResult len (readfull ops len w).0 (readfull ops len w).1
  unfolding readfull
  readfull-FullResult len w good =
      readfull_loop-FullResult (suc len) len len [] w good (omega arith) (omega arith)
