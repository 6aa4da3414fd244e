-- ===== src/Socket/File/Laws.antt =====
-- How many bytes `lthread_sendfile` of src/lthread_socket.c sends.
use lthread.Base.{
  ℕ, zero, suc, ◌+◌, ◌≤◌, ◌<◌, ◌≡◌, ◌≢◌, refl, sym, ap, subst, ◌∙◌, Option-cases, none, some, inl,
  inr, arith,
}
use lthread.Rb.{RbTree}
use lthread.Sched.State.{ev_write, Sched}
use lthread.Socket.Wait.{
  Errno, eagain, Answer, returned_n, error, Result, count, minus_one, minus_two, assert_failed,
  no_fuel, sched_event,
}
use lthread.Socket.Keeps.{sched_event-keeps}
use lthread.Socket.File.{sendfile}

-- What sendfile(2) documents for a file that is long enough, with `gone` the bytes that it has sent on
-- the socket, and `size` those of the headers and trailers of an hdtr: it says how many bytes it sent,
-- and it answers 0 when these are all that it was asked for, or else -1. A number of bytes that is 0
-- asks for all up to the end of the file, of which nothing is said here. `left` bounds how often the
-- socket is not ready.
pub record Documented {K : Type 0} (call : ℕ → ℕ → ℕ → K → (Answer × ℕ) × K) (size : ℕ → ℕ)
    (gone left : K → ℕ) : Type 0 where
  pub says : (h off n : ℕ) (k : K) → gone (call h off n k).1 ≡ gone k + (call h off n k).0.1
  pub all_sent :
      (h off n : ℕ) (k : K) (r : ℕ)
      → 0 < n
      → (call h off n k).0.0 ≡ returned_n r
      → (r ≡ 0) × ((call h off n k).0.1 ≡ size h + n)
  pub calmer :
      (h off n : ℕ) (k : K) → (call h off n k).0.0 ≡ error eagain → left (call h off n k).1 < left k

module _ ⦃T : RbTree⦄ {K : Type 0} (others : Sched → K → Sched × K) (p sock : ℕ) where
  -- The call has ended: it returned 0 and `least` bytes or more are gone, or -1, or an assertion
  -- failed.
  abbrev pub FileResult : (K → ℕ) → ℕ → Result × Sched × K → Type 0
  FileResult gone least (count n, s, k) = (n ≡ 0) × (least ≤ gone k)
  FileResult gone least (minus_one, s, k) = Unit
  FileResult gone least (assert_failed, s, k) = Unit
  FileResult gone least (minus_two, s, k) = ⊥
  FileResult gone least (no_fuel, s, k) = ⊥

  weaken :
      (gone : K → ℕ) (a b : ℕ) (r : Result × Sched × K)
      → a ≤ b
      → FileResult gone b r
      → FileResult gone a r
  weaken gone a b (count n, s, k) le (e, x) = (e, omega (arith, le, x))
  weaken gone a b (minus_one, s, k) le x = tt
  weaken gone a b (assert_failed, s, k) le x = tt
  weaken gone a b (minus_two, s, k) le x = x
  weaken gone a b (no_fuel, s, k) le x = x

  module _ (call : ℕ → ℕ → ℕ → K → (Answer × ℕ) × K) (size : ℕ → ℕ) (gone left : K → ℕ)
      (nbytes hdtr : ℕ) (some_ : 0 < nbytes) (doc : Documented call size gone left)
      (quiet : (t : Sched) (j : K)
        → (gone (others t j).1 ≡ gone j) × (left (others t j).1 ≤ left j)) where
    sendfile_waits :
        (f offset m : ℕ) (s s2 : Sched) (k j k2 : K)
        → call hdtr offset nbytes k ≡ ((error eagain, m), j)
        → sched_event others p sock ev_write 0 s j ≡ some (s2, k2)
        → sendfile others p sock call nbytes hdtr (suc f) offset s k
          ≡ sendfile others p sock call nbytes hdtr f (offset + m) s2 k2
    unfolding sendfile
    sendfile_waits f offset m s s2 k j k2 h g = ground arith

    sendfile_aborts :
        (f offset m : ℕ) (s : Sched) (k j : K)
        → call hdtr offset nbytes k ≡ ((error eagain, m), j)
        → sched_event others p sock ev_write 0 s j ≡ none
        → sendfile others p sock call nbytes hdtr (suc f) offset s k ≡ (assert_failed, s, j)
    unfolding sendfile
    sendfile_aborts f offset m s k j h g = ground arith

    sendfile_fails :
        (f offset m : ℕ) (er : Errno) (s : Sched) (k j : K)
        → er ≢ eagain
        → call hdtr offset nbytes k ≡ ((error er, m), j)
        → sendfile others p sock call nbytes hdtr (suc f) offset s k ≡ (minus_one, s, j)
    unfolding sendfile
    sendfile_fails f offset m er s k j ne h = ground arith

    sendfile_done :
        (f offset m : ℕ) (s : Sched) (k j : K)
        → call hdtr offset nbytes k ≡ ((returned_n 0, m), j)
        → sendfile others p sock call nbytes hdtr (suc f) offset s k ≡ (count 0, s, j)
    unfolding sendfile
    sendfile_done f offset m s k j h = ground arith

    -- A round that is not ready, with `m` bytes sent; `ih` is about the rounds after it.
    not_ready_round :
        (f offset m : ℕ) (s : Sched) (k j : K)
        → ((o : ℕ) (t : Sched) (i : K)
            → left i < f
            → FileResult gone
                (gone i + (size hdtr + nbytes))
                (sendfile others p sock call nbytes hdtr f o t i))
        → left k < suc f
        → call hdtr offset nbytes k ≡ ((error eagain, m), j)
        → FileResult gone
            (gone k + m + (size hdtr + nbytes))
            (sendfile others p sock call nbytes hdtr (suc f) offset s k)
    not_ready_round f offset m s k j ih enough e =
        let less = doc.calmer hdtr offset nbytes k (ap (λ (r : (Answer × ℕ) × K). r.0.0) e) in
        let now = doc.says hdtr offset nbytes k in
        let more : gone j ≡ gone k + m =
          ap (λ (r : (Answer × ℕ) × K). gone r.1) (sym e)
          ∙ now
          ∙ ap (λ (r : (Answer × ℕ) × K). gone k + r.0.1) e in
        let fewer : left j < left k = subst (λ (r : (Answer × ℕ) × K). left r.1 < left k) e less in
        elim (Option-cases (sched_event others p sock ev_write 0 s j)) [
          | inl g ↦
              subst (FileResult gone (gone k + m + (size hdtr + nbytes)))
                (sym (sendfile_aborts f offset m s k j e g)) tt
          | inr ((s2, k2), g) ↦
              let same : gone k2 ≡ gone j =
                sched_event-keeps others p sock (λ i. gone i ≡ gone j) s j
                  (λ t i h. (quiet t i).0 ∙ h) g refl in
              let calm : left k2 ≤ left j =
                sched_event-keeps others p sock (λ i. left i ≤ left j) s j
                  (λ t i h. omega (arith, (quiet t i).1, h)) g (omega arith) in
              subst (FileResult gone (gone k + m + (size hdtr + nbytes)))
                (sym (sendfile_waits f offset m s s2 k j k2 e g))
                (weaken gone (gone k + m + (size hdtr + nbytes)) (gone k2 + (size hdtr + nbytes)) _
                  (omega (arith, same, more))
                  (ih (offset + m) s2 k2 (omega (arith, calm, fewer, enough))))
        ]

    round :
        (f offset : ℕ) (s : Sched) (k : K)
        → ((o : ℕ) (t : Sched) (i : K)
            → left i < f
            → FileResult gone
                (gone i + (size hdtr + nbytes))
                (sendfile others p sock call nbytes hdtr f o t i))
        → left k < suc f
        → (a : Answer) (m : ℕ) (j : K) → call hdtr offset nbytes k ≡ ((a, m), j)
        → FileResult gone
            (gone k + (size hdtr + nbytes))
            (sendfile others p sock call nbytes hdtr (suc f) offset s k)
    round f offset s k ih enough (returned_n r) m j e =
        let (zero_r, all) =
          doc.all_sent hdtr offset nbytes k r some_ (ap (λ (x : (Answer × ℕ) × K). x.0.0) e) in
        let e' = e ∙ ap (λ (x : ℕ). ((returned_n x, m), j)) zero_r in
        let now = doc.says hdtr offset nbytes k in
        let at_j : gone (call hdtr offset nbytes k).1 ≡ gone j =
          ap (λ (x : (Answer × ℕ) × K). gone x.1) e in
        subst (FileResult gone (gone k + (size hdtr + nbytes)))
          (sym (sendfile_done f offset m s k j e')) (refl, omega (arith, now, all, at_j))
    round f offset s k ih enough (error eagain) m j e =
        weaken gone (gone k + (size hdtr + nbytes)) (gone k + m + (size hdtr + nbytes)) _
          (omega arith) (not_ready_round f offset m s k j ih enough e)
    round f offset s k ih enough (error er) m j e =
        subst (FileResult gone (gone k + (size hdtr + nbytes)))
          (sym (sendfile_fails f offset m er s k j (λ q. cc) e)) tt

    sendfile_total :
        (f offset : ℕ) (s : Sched) (k : K)
        → left k < f
        → FileResult gone
            (gone k + (size hdtr + nbytes))
            (sendfile others p sock call nbytes hdtr f offset s k)
    sendfile_total zero offset s k enough = absurd (omega (arith, enough))
    sendfile_total (suc f) offset s k enough =
        round f offset s k (sendfile_total f) enough (call hdtr offset nbytes k).0.0
          (call hdtr offset nbytes k).0.1 (call hdtr offset nbytes k).1 refl

    -- Let sendfile(2) behave as documented on a file that is long enough, let other threads send
    -- nothing on the socket, and let a bound on how often it is not ready go down each time that it
    -- is not. Let lthread_sendfile be asked for one byte or more. When its first call is not ready
    -- after it sent m bytes, then with more fuel than that bound the loop ends, and if it returns
    -- 0, at least m bytes were sent and after them once more the headers and trailers and as many
    -- bytes of the file as it was asked for.
    pub sendfile_oversends :
        (f offset m : ℕ) (s : Sched) (k j : K)
        → left k < suc f
        → call hdtr offset nbytes k ≡ ((error eagain, m), j)
        → FileResult gone
            (gone k + m + (size hdtr + nbytes))
            (sendfile others p sock call nbytes hdtr (suc f) offset s k)
    sendfile_oversends f offset m s k j enough e =
        not_ready_round f offset m s k j (sendfile_total f) enough e
