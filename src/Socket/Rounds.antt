-- ===== src/Socket/Rounds.antt =====
-- The rounds of `LTHREAD_SEND` in src/lthread_socket.c, and what holds when they end.
use lthread.Base.{
  ℕ, zero, suc, ◌+◌, ◌-◌, ◌≤◌, ◌<◌, ◌≡◌, ◌≢◌, ◌⊎◌, refl, sym, ap, subst, true, false, Bool-cases,
  Option-cases, ==_eq, none, some, inl, inr, arith, ◌==◌,
}
use lthread.Rb.{RbTree}
use lthread.Sched.State.{fdeof, ev_write, Sched, has}
use lthread.Socket.Wait.{
  Errno, eagain, enfile, emfile, econnaborted, einprogress, ealready, other, Answer, returned_n,
  error, Result, count, minus_one, minus_two, assert_failed, no_fuel, renice_yield, sched_event,
}
use lthread.Socket.Keeps.{renice_yield-keeps, sched_event-keeps}
use lthread.Socket.Transfer.{send}

-- A call transfers at most the bytes that it is asked for, and at least one of them; `left` bounds
-- how often it is not ready.
pub record WellBehaved {K : Type 0} (call : ℕ → ℕ → K → Answer × K) (left : K → ℕ) : Type 0 where
  pub at_most : (n off : ℕ) (k : K) (m : ℕ) → (call n off k).0 ≡ returned_n m → m ≤ n
  pub some_byte : (n off : ℕ) (k : K) → (call n off k).0 ≡ returned_n zero → n ≡ 0
  pub calmer : (n off : ℕ) (k : K) → left (call n off k).1 ≤ left k
  pub not_ready :
      (n off : ℕ) (k : K) → (call n off k).0 ≡ error eagain → left (call n off k).1 < left k

module _ ⦃T : RbTree⦄ {K : Type 0} (others : Sched → K → Sched × K) (p fd : ℕ) where
  -- An answer of the call
  answer_cases :
      (r : Answer × K)
      → ((n : ℕ) × (j : K) × (r ≡ (returned_n n, j)))
        ⊎ ((j : K) × (r ≡ (error eagain, j)))
        ⊎ ((e : Errno) × (j : K) × (e ≢ eagain) × (r ≡ (error e, j)))
  answer_cases (returned_n n, j) = inl (n, j, refl)
  answer_cases (error eagain, j) = inr (inl (j, refl))
  answer_cases (error enfile, j) = inr (inr (enfile, j, λ q. cc, refl))
  answer_cases (error emfile, j) = inr (inr (emfile, j, λ q. cc, refl))
  answer_cases (error econnaborted, j) = inr (inr (econnaborted, j, λ q. cc, refl))
  answer_cases (error einprogress, j) = inr (inr (einprogress, j, λ q. cc, refl))
  answer_cases (error ealready, j) = inr (inr (ealready, j, λ q. cc, refl))
  answer_cases (error other, j) = inr (inr (other, j, λ q. cc, refl))

  module _ (call : ℕ → ℕ → K → Answer × K) (length : ℕ) where
    module _ (f sent : ℕ) (s : Sched) (k : K) where
      abbrev s1 : Sched
      s1 = (renice_yield others p s k).0

      abbrev k1 : K
      k1 = (renice_yield others p s k).1

      send_all :
          sent == length ≡ true → send others p fd call length (suc f) sent s k ≡ (count sent, s, k)
      unfolding send
      send_all h = ground arith

      send_eof :
          sent == length ≡ false
          → has p fdeof s ≡ true
          → send others p fd call length (suc f) sent s k ≡ (minus_one, s, k)
      unfolding send
      send_eof h g = ground arith

      module _ (more : (sent == length) ≡ false) (open_ : has p fdeof s ≡ false) where
        send_some :
            (n : ℕ) {k2 : K}
            → call (length - sent) sent k1 ≡ (returned_n (suc n), k2)
            → send others p fd call length (suc f) sent s k
              ≡ send others p fd call length f (sent + suc n) s1 k2
        unfolding send
        send_some n h = ground arith

        send_error :
            (e : Errno) {k2 : K}
            → e ≢ eagain
            → call (length - sent) sent k1 ≡ (error e, k2)
            → send others p fd call length (suc f) sent s k ≡ (minus_one, s1, k2)
        unfolding send
        send_error e ne h = ground arith

        send_waits :
            {k2 k3 : K} {s3 : Sched}
            → call (length - sent) sent k1 ≡ (error eagain, k2)
            → sched_event others p fd ev_write 0 s1 k2 ≡ some (s3, k3)
            → send others p fd call length (suc f) sent s k
              ≡ send others p fd call length f sent s3 k3
        unfolding send
        send_waits h g = ground arith

        send_aborts :
            {k2 : K}
            → call (length - sent) sent k1 ≡ (error eagain, k2)
            → sched_event others p fd ev_write 0 s1 k2 ≡ none
            → send others p fd call length (suc f) sent s k ≡ (assert_failed, s1, k2)
        unfolding send
        send_aborts h g = ground arith

    -- The loop has ended: all of `length` was sent, or it failed with less sent.
    abbrev pub Ended : (ℕ → K → Type 0) → Result × Sched × K → Type 0
    Ended P (count n, s, k) = (n ≡ length) × P length k
    Ended P (minus_one, s, k) = (d : ℕ) × (d < length) × P d k
    Ended P (assert_failed, s, k) = (d : ℕ) × (d < length) × P d k
    Ended P (minus_two, s, k) = ⊥
    Ended P (no_fuel, s, k) = ⊥

    -- The calls and the other threads keep `P d`, which says of the kernel that `d` bytes were sent.
    pub record Keeps (P : ℕ → K → Type 0) : Type 0 where
      pub took :
          (d m : ℕ) (k : K)
          → (call (length - d) d k).0 ≡ returned_n m
          → P d k
          → P (d + m) (call (length - d) d k).1
      pub failed :
          (d : ℕ) (e : Errno) (k : K)
          → (call (length - d) d k).0 ≡ error e
          → P d k
          → P d (call (length - d) d k).1
      pub kept : (d : ℕ) (t : Sched) (j : K) → P d j → P d (others t j).1

    module _ (left : K → ℕ) (P : ℕ → K → Type 0) (w : WellBehaved call left)
        (quiet : (t : Sched) (j : K) → left (others t j).1 ≤ left j) (keeps : Keeps P) where
      calm_event :
          (s : Sched) (k : K) {s' : Sched} {k' : K}
          → sched_event others p fd ev_write 0 s k ≡ some (s', k')
          → left k' ≤ left k
      calm_event s k h =
          sched_event-keeps others p fd (λ j. left j ≤ left k) s k
            (λ t j le. omega (arith, quiet t j, le)) h (omega arith)

      -- A round behind its first yield; `ih` is about the rounds after it.
      after_call :
          (f sent : ℕ) (s : Sched) (k : K)
          → ((d : ℕ) (t : Sched) (j : K)
              → d ≤ length
              → length - d + left j < f
              → P d j
              → Ended P (send others p fd call length f d t j))
          → sent < length
          → length - sent + left k < suc f
          → (sent == length) ≡ false
          → has p fdeof s ≡ false
          → P sent (k1 f sent s k)
          → left (k1 f sent s k) ≤ left k
          → Ended P (send others p fd call length (suc f) sent s k)
      after_call f sent s k ih less enough more open_ x fewer =
          let j1 = k1 f sent s k in
          let out = call (length - sent) sent j1 in
          let calm = w.calmer (length - sent) sent j1 in
          elim (answer_cases out) [
            | inl (zero, j, h) ↦ absurd (
                omega (
                  arith,
                  w.some_byte (length - sent) sent j1 (ap (λ (r : Answer × K). r.0) h),
                  less,
                ))
            | inl (suc n, j, h) ↦
                let e = ap (λ (r : Answer × K). r.0) h in
                let upto = w.at_most (length - sent) sent j1 (suc n) e in
                let same = ap (λ (r : Answer × K). left r.1) h in
                subst (Ended P) (sym (send_some f sent s k more open_ n h)) (
                  ih (sent + suc n) (s1 f sent s k) j (omega (arith, less, upto))
                    (omega (arith, less, upto, enough, fewer, calm, same))
                    (subst (λ (r : Answer × K). P (sent + suc n) r.1) h
                      (keeps.took sent (suc n) j1 e x)))
            | inr (inl (j, h)) ↦
                let e = ap (λ (r : Answer × K). r.0) h in
                let calmer = w.not_ready (length - sent) sent j1 e in
                let same = ap (λ (r : Answer × K). left r.1) h in
                let x2 =
                  subst (λ (r : Answer × K). P sent r.1) h (keeps.failed sent eagain j1 e x) in
                elim (Option-cases (sched_event others p fd ev_write 0 (s1 f sent s k) j)) [
                  | inl g ↦
                      subst (Ended P) (sym (send_aborts f sent s k more open_ h g)) (sent, less, x2)
                  | inr ((s3, k3), g) ↦
                      subst (Ended P) (sym (send_waits f sent s k more open_ h g)) (
                        ih sent s3 k3 (omega (arith, less))
                          (omega
                            (arith, enough, fewer, calmer, same, calm_event (s1 f sent s k) j g))
                          (sched_event-keeps others p fd (P sent) (s1 f sent s k) j
                            (keeps.kept sent) g x2))
                ]
            | inr (inr (er, j, ne, h)) ↦
                subst (Ended P) (sym (send_error f sent s k more open_ er ne h)) (
                  sent,
                  less,
                  subst (λ (r : Answer × K). P sent r.1) h
                      (keeps.failed sent er j1 (ap (λ (r : Answer × K). r.0) h) x),
                )
          ]

      -- The loop ends with more fuel than the bytes left and the bound on how often it waits.
      pub send_ends :
          (f sent : ℕ) (s : Sched) (k : K)
          → sent ≤ length
          → length - sent + left k < f
          → P sent k
          → Ended P (send others p fd call length f sent s k)
      send_ends zero sent s k le enough x = absurd (omega (arith, enough))
      send_ends (suc f) sent s k le enough x = elim (Bool-cases (sent == length)) [
        | inl all ↦
            let e = ==_eq sent length all in
            subst (Ended P) (sym (send_all f sent s k all)) (e, subst (λ d. P d k) e x)
        | inr more ↦
            let less : sent < length = ground (arith, le, more) in
            elim (Bool-cases (has p fdeof s)) [
              | inl eof ↦ subst (Ended P) (sym (send_eof f sent s k more eof)) (sent, less, x)
              | inr open_ ↦
                  let j1 = k1 f sent s k in
                  let x1 : P sent j1 =
                    renice_yield-keeps others p fd (P sent) s k (keeps.kept sent) x in
                  let fewer : left j1 ≤ left k =
                    renice_yield-keeps others p fd (λ j. left j ≤ left k) s k
                      (λ t j h. omega (arith, quiet t j, h)) (omega arith) in
                  after_call f sent s k (send_ends f) less enough more open_ x1 fewer
            ]
      ]
