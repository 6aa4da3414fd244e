-- ===== src/Chan/Leave.antt =====
-- `sel_remove_all_chans` of src/chan.c, for a selector that waits.
use mathlib.Core.Path.{fun_ext}
use lthread.Base.{
  ℕ, zero, suc, ◌+◌, ◌-◌, ◌≢◌, ◌≤◌, ◌<◌, ltb, true, subst, false, none, some, ◌≡◌, refl, sym, ap,
  ◌∙◌, arith, List, ◌==◌, get_or, push_back, length,
}
use lthread.Rb.{RbTree}
use lthread.Chan.State.{Wait, Sel, World, chan_at, set_chan, remove_wait}
use lthread.Chan.Try.{leave_sendqs, leave_recvqs, sel_remove_all_chans}
use lthread.Chan.Select.{
  minus_two, lthr_sel_chans, overrun, blocks, select_wait, block_select_resumed, join_sendqs,
  join_recvqs,
}
use lthread.Cond.{cond_wait_begin, cond_wait_end}
use lthread.Sched.State.{Sched}
use lthread.Chan.Queues.{
  Lines, count, others, others_all, leave_one, join_one, leave_all, join_all, Joined, Counted,
  leave_all_lem, join_all_lem,
}

module _ ⦃T : RbTree⦄ where
  -- the queues of the senders, and of the receivers
  abbrev pub send_lines : World → Lines
  send_lines w c = ((w.chan c).send_count, (w.chan c).sendq)

  abbrev pub recv_lines : World → Lines
  recv_lines w c = ((w.chan c).recv_count, (w.chan c).recvq)

  leave_sendqs_lem :
      (s n i : ℕ) (w : World)
      → (send_lines (leave_sendqs s n i w) ≡ leave_all s (λ j. chan_at s j w) n i (send_lines w))
        × (recv_lines (leave_sendqs s n i w) ≡ recv_lines w)
        × ((leave_sendqs s n i w).sel ≡ w.sel)
  unfolding leave_sendqs leave_all
  leave_sendqs_lem s zero i w = (refl, refl, refl)
  leave_sendqs_lem s (suc n) i w =
      let c = chan_at s i w in
      let w1 =
        set_chan c
          (record (w.chan c) {
            sendq = remove_wait (record { sel = s; idx = i }) (w.chan c).sendq;
            send_count = (w.chan c).send_count - 1;
          })
          w in
      let (send, recv, same) = leave_sendqs_lem s n (i + 1) w1 in
      let one : send_lines w1 ≡ leave_one s (λ j. chan_at s j w) i (send_lines w) =
        fun_ext (λ d. ground arith) in
      let rest : recv_lines w1 ≡ recv_lines w = fun_ext (λ d. ground arith) in
      (send ∙ ap (leave_all s (λ j. chan_at s j w) n (i + 1)) one, recv ∙ rest, same)

  leave_recvqs_lem :
      (s n i : ℕ) (w : World)
      → (recv_lines (leave_recvqs s n i w) ≡ leave_all s (λ j. chan_at s j w) n i (recv_lines w))
        × (send_lines (leave_recvqs s n i w) ≡ send_lines w)
        × ((leave_recvqs s n i w).sel ≡ w.sel)
  unfolding leave_recvqs leave_all
  leave_recvqs_lem s zero i w = (refl, refl, refl)
  leave_recvqs_lem s (suc n) i w =
      let c = chan_at s i w in
      let w1 =
        set_chan c
          (record (w.chan c) {
            recvq = remove_wait (record { sel = s; idx = i }) (w.chan c).recvq;
            recv_count = (w.chan c).recv_count - 1;
          })
          w in
      let (recv, send, same) = leave_recvqs_lem s n (i + 1) w1 in
      let one : recv_lines w1 ≡ leave_one s (λ j. chan_at s j w) i (recv_lines w) =
        fun_ext (λ d. ground arith) in
      let rest : send_lines w1 ≡ send_lines w = fun_ext (λ d. ground arith) in
      (recv ∙ ap (leave_all s (λ j. chan_at s j w) n (i + 1)) one, send ∙ rest, same)

  join_sendqs_lem :
      (s n i : ℕ) (w : World)
      → (send_lines (join_sendqs s n i w) ≡ join_all s (λ j. chan_at s j w) n i (send_lines w))
        × (recv_lines (join_sendqs s n i w) ≡ recv_lines w)
        × ((join_sendqs s n i w).sel ≡ w.sel)
  unfolding join_sendqs join_all
  join_sendqs_lem s zero i w = (refl, refl, refl)
  join_sendqs_lem s (suc n) i w =
      let c = chan_at s i w in
      let w1 =
        set_chan c
          (record (w.chan c) {
            send_count = (w.chan c).send_count + 1;
            sendq = push_back (w.chan c).sendq (record { sel = s; idx = i });
          })
          w in
      let (send, recv, same) = join_sendqs_lem s n (i + 1) w1 in
      let one : send_lines w1 ≡ join_one s (λ j. chan_at s j w) i (send_lines w) =
        fun_ext (λ d. ground arith) in
      let rest : recv_lines w1 ≡ recv_lines w = fun_ext (λ d. ground arith) in
      (send ∙ ap (join_all s (λ j. chan_at s j w) n (i + 1)) one, recv ∙ rest, same)

  join_recvqs_lem :
      (s n i : ℕ) (w : World)
      → (recv_lines (join_recvqs s n i w) ≡ join_all s (λ j. chan_at s j w) n i (recv_lines w))
        × (send_lines (join_recvqs s n i w) ≡ send_lines w)
        × ((join_recvqs s n i w).sel ≡ w.sel)
  unfolding join_recvqs join_all
  join_recvqs_lem s zero i w = (refl, refl, refl)
  join_recvqs_lem s (suc n) i w =
      let c = chan_at s i w in
      let w1 =
        set_chan c
          (record (w.chan c) {
            recv_count = (w.chan c).recv_count + 1;
            recvq = push_back (w.chan c).recvq (record { sel = s; idx = i });
          })
          w in
      let (recv, send, same) = join_recvqs_lem s n (i + 1) w1 in
      let one : recv_lines w1 ≡ join_one s (λ j. chan_at s j w) i (recv_lines w) =
        fun_ext (λ d. ground arith) in
      let rest : send_lines w1 ≡ send_lines w = fun_ext (λ d. ground arith) in
      (recv ∙ ap (join_all s (λ j. chan_at s j w) n (i + 1)) one, send ∙ rest, same)

  -- The selector's entries are those of its channels to send on and to receive from.
  abbrev pub Waits : ℕ → World → Type 0
  Waits s w =
      Joined s (λ j. chan_at s j w) 0 (w.sel s).wchan_count (send_lines w)
      × Joined s (λ j. chan_at s j w) (w.sel s).wchan_count (w.sel s).rchan_count (recv_lines w)
      × Counted (send_lines w)
      × Counted (recv_lines w)

  -- Let the entries of a selector in the wait queues be one for each of its channels, in the queue
  -- of senders or of receivers as the index says, and let the count of each queue be its length.
  -- Then sel_remove_all_chans leaves in every queue exactly the entries of the other selectors, in
  -- their order, and each count is again the length of its queue.
  pub sel_remove_all_chans-others :
      (s : ℕ) (w : World)
      → Waits s w
      → ((c : ℕ) → ((sel_remove_all_chans s w).chan c).sendq ≡ others s (w.chan c).sendq)
        × ((c : ℕ) → ((sel_remove_all_chans s w).chan c).recvq ≡ others s (w.chan c).recvq)
        × Counted (send_lines (sel_remove_all_chans s w))
        × Counted (recv_lines (sel_remove_all_chans s w))
  unfolding sel_remove_all_chans
  sel_remove_all_chans-others s w (js, jr, ks, kr) =
      let at = λ (j : ℕ). chan_at s j w in
      let n = (w.sel s).wchan_count in
      let w1 = leave_sendqs s n 0 w in
      let (send1, recv1, same1) = leave_sendqs_lem s n 0 w in
      let (recv2, send2, same2) = leave_recvqs_lem s (w.sel s).rchan_count n w1 in
      let (left_s, counted_s) = leave_all_lem s at n 0 (send_lines w) js ks in
      let (left_r, counted_r) = leave_all_lem s at (w.sel s).rchan_count n (recv_lines w) jr kr in
      let e_s = send2 ∙ send1 in
      let e_r =
        recv2
        ∙ ap
            (λ (σ : ℕ → Sel).
              leave_all s (λ j. get_or (σ s).chans j 0) (w.sel s).rchan_count n (recv_lines w1))
            same1
        ∙ ap (leave_all s at (w.sel s).rchan_count n) recv1 in
      (
        (λ c. ap (λ (f : Lines). (f c).1) e_s ∙ left_s c),
        (λ c. ap (λ (f : Lines). (f c).1) e_r ∙ left_r c),
        subst Counted (sym e_s) counted_s,
        subst Counted (sym e_r) counted_r,
      )

  -- the world in which a select waits
  abbrev pub waiting : ℕ → World → World
  waiting s w =
      join_recvqs s (w.sel s).rchan_count (w.sel s).wchan_count
        (join_sendqs s (w.sel s).wchan_count 0 w)

  -- no entry of the selector in a queue
  abbrev pub Absent : ℕ → Lines → Type 0
  Absent s f = (c j : ℕ) → count (record { sel = s; idx = j }) (f c).1 ≡ 0

  waiting-Waits :
      (s : ℕ) (w : World)
      → Absent s (send_lines w)
      → Absent s (recv_lines w)
      → Counted (send_lines w)
      → Counted (recv_lines w)
      → Waits s (waiting s w)
        × ((c : ℕ) → others s (send_lines (waiting s w) c).1 ≡ (send_lines w c).1)
        × ((c : ℕ) → others s (recv_lines (waiting s w) c).1 ≡ (recv_lines w c).1)
        × ((waiting s w).sel ≡ w.sel)
  waiting-Waits s w abs_s abs_r ks kr =
      let at = λ (j : ℕ). chan_at s j w in
      let n = (w.sel s).wchan_count in
      let r = (w.sel s).rchan_count in
      let w1 = join_sendqs s n 0 w in
      let (send1, recv1, same1) = join_sendqs_lem s n 0 w in
      let (recv2, send2, same2) = join_recvqs_lem s r n w1 in
      let e_s = send2 ∙ send1 in
      let e_r =
        recv2
        ∙ ap (λ (σ : ℕ → Sel). join_all s (λ j. get_or (σ s).chans j 0) r n (recv_lines w1)) same1
        ∙ ap (join_all s at r n) recv1 in
      let same = same2 ∙ same1 in
      let (js, left_s, counted_s) =
        join_all_lem s at n 0 0 0 (send_lines w) (omega arith) (λ c j. ground (arith, abs_s c j))
          ks in
      let (jr, left_r, counted_r) =
        join_all_lem s at r n 0 n (recv_lines w) (omega arith) (λ c j. ground (arith, abs_r c j))
          kr in
      let all_n : 0 + n ≡ n = omega arith in
      let all_r : 0 + r ≡ r = omega arith in
      let j_s : Joined s at 0 n (send_lines (waiting s w)) =
        subst (λ x. Joined s at 0 x (send_lines (waiting s w))) all_n
          (subst (Joined s at 0 (0 + n)) (sym e_s) js) in
      let j_r : Joined s at n r (recv_lines (waiting s w)) =
        subst (λ x. Joined s at n x (recv_lines (waiting s w))) all_r
          (subst (Joined s at n (0 + r)) (sym e_r) jr) in
      (
        (
          subst
              (λ (σ : ℕ → Sel).
                Joined s (λ j. get_or (σ s).chans j 0) 0 (σ s).wchan_count
                  (send_lines (waiting s w)))
              (sym same) j_s,
          subst
              (λ (σ : ℕ → Sel).
                Joined s (λ j. get_or (σ s).chans j 0) (σ s).wchan_count (σ s).rchan_count
                  (recv_lines (waiting s w)))
              (sym same) j_r,
          subst Counted (sym e_s) counted_s,
          subst Counted (sym e_r) counted_r,
        ),
        (λ c.
            ap (λ (f : Lines). others s (f c).1) e_s
            ∙ left_s c
            ∙ others_all s (send_lines w c).1 (abs_s c)),
        (λ c.
            ap (λ (f : Lines). others s (f c).1) e_r
            ∙ left_r c
            ∙ others_all s (recv_lines w c).1 (abs_r c)),
        same,
      )

  line_eq : (a b : ℕ × List Wait) → a.1 ≡ b.1 → a.0 ≡ length a.1 → b.0 ≡ length b.1 → a ≡ b
  line_eq (n, q) (m, r) e ka kb =
      ap (λ (x : ℕ). (x, q)) ka
      ∙ ap (λ (x : List Wait). (length x, x)) e
      ∙ ap (λ (x : ℕ). (x, r)) (sym kb)

  select_wait-blocks :
      (s timeout : ℕ) (w : World) (sched1 : Sched)
      → timeout ≢ 0
      → (w.sel s).wchan_count + (w.sel s).rchan_count ≤ lthr_sel_chans
      → cond_wait_begin (w.sel s).cond timeout (waiting s w).sched ≡ some sched1
      → select_wait s timeout w ≡ blocks (record (waiting s w) { sched = sched1 })
  unfolding select_wait
  select_wait-blocks s timeout w sched1 ne room go =
      let test : (timeout == 0) ≡ false = ground arith in
      let fits : ltb lthr_sel_chans ((w.sel s).wchan_count + (w.sel s).rchan_count) ≡ false =
        ground arith in
      rw (select_wait, test, fits, go) refl

  -- A select of more channels than a selector has entries that has to wait writes behind them.
  select_wait-overrun :
      (s timeout : ℕ) (w : World)
      → timeout ≢ 0
      → lthr_sel_chans < (w.sel s).wchan_count + (w.sel s).rchan_count
      → select_wait s timeout w ≡ overrun
  unfolding select_wait
  select_wait-overrun s timeout w ne many =
      let test : (timeout == 0) ≡ false = ground arith in
      let tight : ltb lthr_sel_chans ((w.sel s).wchan_count + (w.sel s).rchan_count) ≡ true =
        ground arith in
      rw (select_wait, test, tight) refl

  timed_out_lem :
      (s p timeout : ℕ) (w : World) (sched3 : Sched)
      → (w.sel s).target ≡ none
      → cond_wait_end (w.sel s).cond p timeout w.sched ≡ (false, sched3)
      → block_select_resumed s p timeout w
        ≡ (minus_two, sel_remove_all_chans s (record w { sched = sched3 }))
  unfolding block_select_resumed
  timed_out_lem s p timeout w sched3 open_ timed_out =
      rw (block_select_resumed, timed_out, open_) refl

  -- Let a selector have no entry in any wait queue, let the count of each queue be its length, and
  -- let the selector be served by nobody. When a select over at most LTHR_SEL_CHANS channels with a
  -- timeout other than 0 blocks, and its thread is resumed with the wait timed out and the channels
  -- as they were, it returns -2, and every wait queue of every channel and its count are as before
  -- the select.
  pub select_timeout :
      (s p timeout : ℕ) (w : World) (sched1 sched2 sched3 : Sched)
      → Absent s (send_lines w)
      → Absent s (recv_lines w)
      → Counted (send_lines w)
      → Counted (recv_lines w)
      → timeout ≢ 0
      → (w.sel s).wchan_count + (w.sel s).rchan_count ≤ lthr_sel_chans
      → (w.sel s).target ≡ none
      → cond_wait_begin (w.sel s).cond timeout (waiting s w).sched ≡ some sched1
      → cond_wait_end (w.sel s).cond p timeout sched2 ≡ (false, sched3)
      → (w1 w2 : World) × (select_wait s timeout w ≡ blocks (record w1 { sched = sched1 }))
        × (block_select_resumed s p timeout (record w1 { sched = sched2 }) ≡ (minus_two, w2))
        × ((c : ℕ) → send_lines w2 c ≡ send_lines w c)
        × ((c : ℕ) → recv_lines w2 c ≡ recv_lines w c)
  select_timeout s p timeout w sched1 sched2 sched3 abs_s abs_r ks kr ne room open_ go timed_out =
      let (waits, left_s, left_r, same) = waiting-Waits s w abs_s abs_r ks kr in
      let w2 = record (waiting s w) { sched = sched3 } in
      let (out_s, out_r, counted_s, counted_r) = sel_remove_all_chans-others s w2 waits in
      (
        waiting s w,
        sel_remove_all_chans s w2,
        select_wait-blocks s timeout w sched1 ne room go,
        timed_out_lem s p timeout (record (waiting s w) { sched = sched2 }) sched3
            (ap (λ (σ : ℕ → Sel). (σ s).target) same ∙ open_)
            (ap (λ (σ : ℕ → Sel). cond_wait_end (σ s).cond p timeout sched2) same ∙ timed_out),
        (λ c.
            line_eq (send_lines (sel_remove_all_chans s w2) c) (send_lines w c) (out_s c ∙ left_s c)
              (counted_s c) (ks c)),
        (λ c.
            line_eq (recv_lines (sel_remove_all_chans s w2) c) (recv_lines w c) (out_r c ∙ left_r c)
              (counted_r c) (kr c)),
      )
