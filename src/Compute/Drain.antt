-- ===== src/Compute/Drain.antt =====
-- The inner loop of `_lthread_compute_run` in src/lthread_compute.c.
use lthread.Base.{
  ℕ, zero, suc, ◌≡◌, refl, ap, sym, ◌∙◌, false, List, [], ◌∷◌, ◌++◌, append_assoc, append-nil, some,
  arith, update, push_back, length,
}
use lthread.Rb.{RbTree}
use lthread.Sched.State.{has, pending_runcompute}
use lthread.Compute.{Pool, no_work, look_again, takes, worker_take, worker_give}

module _ ⦃T : RbTree⦄ where
  -- The loop, for `n` looks at the queue; `user` is what a thread does until `lthread_compute_end`.
  unfoldable pub compute_run : (ℕ → Pool → Pool) → ℕ → ℕ → Pool → Pool
  unfolding worker_take worker_give
  compute_run user zero c w = w
  compute_run user (suc n) c w = elim (worker_take c w) as (λ _. Pool) [
    | no_work ↦ w
    | look_again ↦ compute_run user n c w
    | takes p w' ↦ compute_run user n c (worker_give c p (user p w'))
  ]

  -- What the threads' computations leave alone.
  pub record IsQuiet (user : ℕ → Pool → Pool) : Type 0 where
    pub same_lthreads : (p : ℕ) (w : Pool) → (user p w).lthreads ≡ w.lthreads
    pub same_defer : (p : ℕ) (w : Pool) → (user p w).sched.defer_q ≡ w.sched.defer_q
    pub same_pending :
        (p q : ℕ) (w : Pool)
        → has q pending_runcompute (user p w).sched ≡ has q pending_runcompute w.sched

  abbrev pub AllLeft : List ℕ → Pool → Type 0
  AllLeft [] w = Unit {0}
  AllLeft (p ∷ ps) w = (has p pending_runcompute w.sched ≡ false) × AllLeft ps w

  abbrev taken : ℕ → ℕ → List ℕ → Pool → Pool
  taken c p ps w = record w {
    lthreads = update w.lthreads c ps;
    current = update w.current c (some p);
    free = update w.free c false;
  }

  takes_first :
      (c p : ℕ) (ps : List ℕ) (w : Pool)
      → w.lthreads c ≡ p ∷ ps
      → has p pending_runcompute w.sched ≡ false
      → worker_take c w ≡ takes p (taken c p ps w)
  unfolding worker_take
  takes_first c p ps w e left = rw e (rw left refl)

  run_round :
      (user : ℕ → Pool → Pool) (n c p : ℕ) (ps : List ℕ) (w : Pool)
      → w.lthreads c ≡ p ∷ ps
      → has p pending_runcompute w.sched ≡ false
      → compute_run user (suc n) c w
        ≡ compute_run user n c (worker_give c p (user p (taken c p ps w)))
  unfolding compute_run
  run_round user n c p ps w e left = rw (takes_first c p ps w e left, compute_run)

  AllLeft-round :
      (user : ℕ → Pool → Pool) (c p : ℕ) (qs ps : List ℕ) (w : Pool)
      → IsQuiet user
      → AllLeft qs w
      → AllLeft qs (worker_give c p (user p (taken c p ps w)))
  unfolding worker_give
  AllLeft-round user c p [] ps w quiet all = tt
  AllLeft-round user c p (q ∷ qs) ps w quiet all = (
    ground (arith, quiet.same_pending p q (taken c p ps w), all),
    AllLeft-round user c p qs ps w quiet all.1,
  )

  give_queue :
      (c p : ℕ) (w : Pool)
      → ((worker_give c p w).lthreads ≡ w.lthreads)
        × ((worker_give c p w).sched.defer_q ≡ push_back w.sched.defer_q p)
  unfolding worker_give
  give_queue c p w = (refl, refl)

  run_none : (user : ℕ → Pool → Pool) (c : ℕ) (w : Pool) → compute_run user 0 c w ≡ w
  unfolding compute_run
  run_none user c w = refl

  -- A compute scheduler whose queued threads have all left their schedulers empties its queue in as
  -- many looks at it as there are threads, and puts each back behind the deferred queue of its
  -- scheduler, in the order of the queue, when what the threads compute leaves the queues and the
  -- pending marks alone.
  pub compute_run-drains :
      (user : ℕ → Pool → Pool) (c : ℕ) (ps : List ℕ) (w : Pool)
      → IsQuiet user
      → w.lthreads c ≡ ps
      → AllLeft ps w
      → ((compute_run user (length ps) c w).lthreads c ≡ [])
        × ((compute_run user (length ps) c w).sched.defer_q ≡ w.sched.defer_q ++ ps)
  compute_run-drains user c [] w quiet e all = (
    ap (λ (x : Pool). x.lthreads c) (run_none user c w) ∙ e,
    ap (λ (x : Pool). x.sched.defer_q) (run_none user c w) ∙ sym (append-nil w.sched.defer_q),
  )
  compute_run-drains user c (p ∷ ps) w quiet e all =
      let t = taken c p ps w in
      let w' = worker_give c p (user p t) in
      let queue : w'.lthreads c ≡ ps =
        ap (λ f. f c) ((give_queue c p (user p t)).0 ∙ quiet.same_lthreads p t) ∙ ground arith in
      let rest =
        compute_run-drains user c ps w' quiet queue (AllLeft-round user c p ps ps w quiet all.1) in
      let go = run_round user (length ps) c p ps w e all.0 in
      (
        ap (λ (x : Pool). x.lthreads c) go ∙ rest.0,
        ap (λ (x : Pool). x.sched.defer_q) go
            ∙ rest.1
            ∙ ap (λ l. l ++ ps)
                ((give_queue c p (user p t)).1 ∙ ap (λ l. push_back l p) (quiet.same_defer p t))
            ∙ append_assoc w.sched.defer_q (p ∷ []) ps,
      )
