-- ===== src/Cond/Laws.antt =====
-- Who waits on a condition variable of src/lthread.c, and who is woken, in which order.
use lthread.Base.{
  ℕ, ◌≡◌, refl, ap, sym, ◌∙◌, false, List, [], ◌∷◌, ◌++◌, remove, push_back, arith, update,
  append_assoc, append-nil,
}
use lthread.Rb.{RbTree}
use lthread.Sched.State.{sleeping, Sched, has}
use lthread.Sched.Sleep.Inv.{SleepersAgree, desched_sleep-Agrees}
use lthread.Sched.Sleep.Wake.{desched_sleep-awake, desched_sleep-queues}
use lthread.Cond.{cond_signal, cond_broadcast, release_all, release}

module _ ⦃T : RbTree⦄ where
  release_blocked :
      (c p : ℕ) (ps : List ℕ) (s : Sched)
      → s.blocked c ≡ p ∷ ps
      → ((release c p s).blocked c ≡ ps) × ((release c p s).ready_q ≡ push_back s.ready_q p)
  unfolding remove
  release_blocked c p ps s e = ground (
    arith,
    desched_sleep-queues p (record s { blocked = update s.blocked c (remove p (s.blocked c)) }),
  )

  release_all_lem :
      (c : ℕ) (ps : List ℕ) (s : Sched)
      → s.blocked c ≡ ps
      → ((release_all c ps s).blocked c ≡ []) × ((release_all c ps s).ready_q ≡ s.ready_q ++ ps)
  unfolding release_all
  release_all_lem c [] s e = (e, sym (append-nil s.ready_q))
  release_all_lem c (p ∷ ps) s e =
      let step = release_blocked c p ps s e in
      let rest = release_all_lem c ps (release c p s) step.0 in
      (rest.0, rest.1 ∙ ap (λ q. q ++ ps) step.1 ∙ append_assoc s.ready_q (p ∷ []) ps)

  -- Broadcast appends all blocked threads to the ready queue, in the order in which they waited,
  -- and nobody is blocked afterwards.
  pub cond_broadcast_lem :
      (c : ℕ) (s : Sched)
      → ((cond_broadcast c s).blocked c ≡ [])
        × ((cond_broadcast c s).ready_q ≡ s.ready_q ++ s.blocked c)
  unfolding cond_broadcast
  cond_broadcast_lem c s = release_all_lem c (s.blocked c) s refl

  release_all-Agrees :
      (c : ℕ) (ps : List ℕ) (s : Sched) → SleepersAgree s → SleepersAgree (release_all c ps s)
  unfolding release_all
  release_all-Agrees c [] s a = a
  release_all-Agrees c (p ∷ ps) s a = release_all-Agrees c ps (release c p s) (
      desched_sleep-Agrees p (record s { blocked = update s.blocked c (remove p (s.blocked c)) }) a)

  -- A signal wakes the thread at the head of the queue: it is appended to the ready queue and
  -- sleeps no more, and the others stay blocked in their order.
  pub cond_signal_lem :
      (c p : ℕ) (ps : List ℕ) (s : Sched)
      → s.blocked c ≡ p ∷ ps
      → ((cond_signal c s).blocked c ≡ ps)
        × ((cond_signal c s).ready_q ≡ push_back s.ready_q p)
        × (has p sleeping (cond_signal c s) ≡ false)
  unfolding cond_signal
  cond_signal_lem c p ps s e = ground (
    arith,
    release_blocked c p ps s e,
    desched_sleep-awake p (record s { blocked = update s.blocked c (remove p (s.blocked c)) }),
  )
