-- ===== src/Conn/Write.antt =====
-- `tcp_conn_write` of src/mux/tcp_conn.c over `lthread_write` of src/lthread_socket.c.
use lthread.Base.{
  ℕ, zero, suc, ◌+◌, ◌-◌, ◌≤◌, ◌<◌, ◌≡◌, ◌⊎◌, refl, sym, subst, ap, ◌∙◌, inl, inr, arith, List, [],
  ◌∷◌, ◌++◌, append_assoc, append-nil,
}
use lthread.Rb.{RbTree}
use lthread.Sched.State.{Sched}
use lthread.Socket.Wait.{
  Errno, Answer, returned_n, error, Result, count, minus_one, minus_two, assert_failed, no_fuel,
}
use lthread.Socket.Transfer.{send}
use lthread.Socket.Rounds.{WellBehaved, Ended, Keeps, send_ends}
use lthread.Conn.{write_loop, tcp_conn_write}

-- the indexes from the first on, as many as the second says
abbrev pub indexes : ℕ → ℕ → List ℕ
indexes off zero = []
indexes off (suc m) = off ∷ indexes (off + 1) m

indexes-add : (off d m : ℕ) → indexes off d ++ indexes (off + d) m ≡ indexes off (d + m)
indexes-add off zero m =
    ap (λ o. indexes o m) {y = off} (omega arith) ∙ ap (indexes off) {y = 0 + m} (omega arith)
indexes-add off (suc d) m =
    ap (λ l. off ∷ l)
      (ap (λ o. indexes (off + 1) d ++ indexes o m) {y = off + 1 + d} (omega arith)
        ∙ indexes-add (off + 1) d m)
    ∙ ap (indexes off) {x = suc (d + m)} {y = suc d + m} (omega arith)

-- The log has the indexes of the bytes of the buffer that the kernel took.
pub record Logged {K : Type 0} (call : ℕ → ℕ → K → Answer × K) (log : K → List ℕ) : Type 0 where
  pub took :
      (n off m : ℕ) (k : K)
      → (call n off k).0 ≡ returned_n m
      → log (call n off k).1 ≡ log k ++ indexes off m
  pub failed :
      (n off : ℕ) (e : Errno) (k : K) → (call n off k).0 ≡ error e → log (call n off k).1 ≡ log k

module _ ⦃T : RbTree⦄ {K : Type 0} (log : K → List ℕ) where
  -- Since the log `old`, the first `d` bytes of the buffer were sent, in order and once each.
  abbrev pub SentFirst : List ℕ → ℕ → K → Type 0
  SentFirst old d k = log k ≡ old ++ indexes 0 d

  -- The length is returned and all was sent, or 0 and less was sent, or an assertion failed.
  abbrev pub AllOrNothing : List ℕ → ℕ → Result × (Sched × K) → Type 0
  AllOrNothing old len (count n, (s, k)) =
      ((n ≡ len) × SentFirst old len k) ⊎ ((n ≡ 0) × (d : ℕ) × (d < len) × SentFirst old d k)
  AllOrNothing old len (assert_failed, (s, k)) = (d : ℕ) × (d < len) × SentFirst old d k
  AllOrNothing old len _ = ⊥

module _ ⦃T : RbTree⦄ {K : Type 0} (others : Sched → K → Sched × K) (p fd : ℕ) where
  module _ (call : ℕ → ℕ → K → Answer × K) (f : ℕ) where
    -- `lthread_write` of `len` bytes from the index `off` of the buffer on
    abbrev pub write_by : ℕ → ℕ → Sched × K → Result × (Sched × K)
    write_by len off (s, k) =
        let (r, s', k') = send others p fd (λ n o. call n (off + o)) len f 0 s k in (r, (s', k'))

    shifted-WellBehaved :
        (left : K → ℕ) → WellBehaved call left → WellBehaved (λ n o. call n (0 + o)) left
    shifted-WellBehaved left w = record {
      at_most = λ n o. w.at_most n (0 + o);
      some_byte = λ n o. w.some_byte n (0 + o);
      calmer = λ n o. w.calmer n (0 + o);
      not_ready = λ n o. w.not_ready n (0 + o);
    }

    shifted-Keeps :
        (len : ℕ) (log : K → List ℕ) (old : List ℕ)
        → Logged call log
        → ((t : Sched) (j : K) → log (others t j).1 ≡ log j)
        → Keeps others p fd (λ n o. call n (0 + o)) len (SentFirst log old)
    shifted-Keeps len log old logged same = record {
      took = λ d m k e x.
          logged.took (len - d) (0 + d) m k e
          ∙ ap (λ l. l ++ indexes (0 + d) m) x
          ∙ append_assoc old (indexes 0 d) (indexes (0 + d) m)
          ∙ ap (λ l. old ++ l) (indexes-add 0 d m);
      failed = λ d e k h x. logged.failed (len - d) (0 + d) e k h ∙ x;
      kept = λ d t j x. same t j ∙ x;
    }

    module _ (len : ℕ) (log : K → List ℕ) (old : List ℕ) (s : Sched) (k : K) where
      abbrev sent_now : Result × Sched × K
      sent_now = send others p fd (λ n o. call n (0 + o)) len f 0 s k

      -- What tcp_conn_write makes of its first call of lthread_write, when that is its last.
      abbrev reported : Result × Sched × K → Result × (Sched × K)
      reported (count n, s', k') = (count n, (s', k'))
      reported (assert_failed, s', k') = (assert_failed, (s', k'))
      reported (no_fuel, s', k') = (no_fuel, (s', k'))
      reported (r, s', k') = (count 0, (s', k'))

      one_round :
          (out : Result × Sched × K)
          → sent_now ≡ out
          → Ended others p fd (λ n o. call n (0 + o)) len (SentFirst log old) out
          → tcp_conn_write write_by len (s, k) ≡ reported out
      unfolding tcp_conn_write write_loop
      one_round (count zero, s', k') h e = ground (arith, h)
      one_round (count (suc m), s', k') h e = ground (arith, h, e)
      one_round (minus_one, s', k') h e = ground (arith, h)
      one_round (minus_two, s', k') h e = absurd e
      one_round (assert_failed, s', k') h e = ground (arith, h)
      one_round (no_fuel, s', k') h e = absurd e

      reported-AllOrNothing :
          (out : Result × Sched × K)
          → Ended others p fd (λ n o. call n (0 + o)) len (SentFirst log old) out
          → AllOrNothing log old len (reported out)
      reported-AllOrNothing (count n, s', k') e = inl e
      reported-AllOrNothing (minus_one, s', k') (d, less, e) = inr (refl, d, less, e)
      reported-AllOrNothing (minus_two, s', k') e = absurd e
      reported-AllOrNothing (assert_failed, s', k') e = e
      reported-AllOrNothing (no_fuel, s', k') e = absurd e

    -- Over lthread_write of a kernel that takes between one byte and what it is asked for, is not
    -- ready at most as often as its state says, and fails otherwise, and of which a log has the
    -- index of each byte of the buffer that it takes, tcp_conn_write ends with the fuel for that
    -- many rounds. It returns the whole length, and then all bytes of the buffer were sent, in
    -- order and once each; or it returns 0, and then some first bytes were sent, perhaps none but
    -- not all; or an assertion fails, with less than all sent.
    pub tcp_conn_write-AllOrNothing :
        (left : K → ℕ) (log : K → List ℕ) (len : ℕ) (s : Sched) (k : K)
        → WellBehaved call left
        → Logged call log
        → ((t : Sched) (j : K) → (left (others t j).1 ≤ left j) × (log (others t j).1 ≡ log j))
        → len + left k < f
        → AllOrNothing log (log k) len (tcp_conn_write write_by len (s, k))
    tcp_conn_write-AllOrNothing left log len s k w logged quiet enough =
        let out = sent_now len log (log k) s k in
        let ends : Ended others p fd (λ n o. call n (0 + o)) len (SentFirst log (log k)) out =
          send_ends others p fd (λ n o. call n (0 + o)) len left (SentFirst log (log k))
            (shifted-WellBehaved left w) (λ t j. (quiet t j).0)
            (shifted-Keeps len log (log k) logged (λ t j. (quiet t j).1)) f 0 s k (omega arith)
            (omega (arith, enough)) (sym (append-nil (log k))) in
        subst (AllOrNothing log (log k) len) (sym (one_round len log (log k) s k out refl ends))
          (reported-AllOrNothing len log (log k) s k out ends)
