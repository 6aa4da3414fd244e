-- ===== src/Run/Pass.antt =====
-- Step 2 of `lthread_run` in src/lthread_sched.c: one pass over the ready queue.
use lthread.Base.{
  ℕ, suc, ◌≡◌, ◌⊎◌, inl, inr, sym, ap, ◌∙◌, Bool, true, false, Bool-cases, Option-cases, none, some,
  List, [], ◌∷◌, ◌++◌, ◌==◌, if◌then◌else◌, length, append-nil, append_assoc, arith,
}
use lthread.Rb.{RbTree}
use lthread.Sched.State.{Sched, has, cancelled, exited}
use lthread.Sched.Sleep.{desched_sleep}
use lthread.Thread.{wake_joiner, free_if_detached, resume_cancelled, prepare, resume_after, resume}
use lthread.Run.{ran, fault, run_ready}

-- The first list is a prefix of the second.
abbrev pub Grows : List ℕ → List ℕ → Type 0
Grows xs ys = (more : List ℕ) × (ys ≡ xs ++ more)

abbrev pub rest_of : List ℕ → List ℕ
rest_of [] = []
rest_of (x ∷ xs) = xs

abbrev pub is_among : ℕ → List ℕ → Bool
is_among p [] = false
is_among p (q ∷ qs) = if q == p then true else is_among p qs

Grows-refl : (xs : List ℕ) → Grows xs xs
Grows-refl xs = ([], sym (append-nil xs))

Grows-trans : (xs : List ℕ) {ys zs : List ℕ} → Grows xs ys → Grows ys zs → Grows xs zs
Grows-trans xs (m, e) (n, f) = (m ++ n, f ∙ ap (λ l. l ++ n) e ∙ append_assoc xs m n)

module _ ⦃T : RbTree⦄ where
  -- The thread at the front of the queue is taken out.
  abbrev pub pop : Sched → Sched
  pop s = record s { ready_q = rest_of s.ready_q }

  wake_joiner-Grows : (p : ℕ) (s : Sched) → Grows s.ready_q (wake_joiner p s).ready_q
  unfolding wake_joiner desched_sleep
  wake_joiner-Grows p s = elim (Bool-cases ((s.lt p).lt_join == 0)) [
    | inl alone ↦ ([], ground (arith, alone, append-nil s.ready_q))
    | inr joined ↦ ((s.lt p).lt_join ∷ [], ground (arith, joined))
  ]

  free_if_detached-same : (p : ℕ) (s : Sched) → (free_if_detached p s).ready_q ≡ s.ready_q
  free_if_detached-same p s = ground arith

  resume_cancelled-ready :
      (p : ℕ) (s : Sched) {s' : Sched}
      → resume_cancelled p s ≡ some s'
      → s'.ready_q ≡ (wake_joiner p s).ready_q
  unfolding resume_cancelled
  resume_cancelled-ready p s h = ground (arith, h)

  prepare-ready : (p : ℕ) (s : Sched) → (prepare p s).ready_q ≡ s.ready_q
  prepare-ready p s = ground arith

  pub resume_after-Grows : (p : ℕ) (s : Sched) → Grows s.ready_q (resume_after p s).1.ready_q
  unfolding resume_after
  resume_after-Grows p s = elim (Bool-cases (has p exited s)) [
    | inl gone ↦
        let (more, e) = wake_joiner-Grows p s in
        (more, rw (gone) (free_if_detached-same p (wake_joiner p s) ∙ e))
    | inr here_ ↦ ([], ground (arith, here_, append-nil s.ready_q))
  ]

  -- The threads of a list are resumed, each once and in order, with nothing in between.
  pub data Turns (user : ℕ → Sched → Sched) : List ℕ → Sched → Sched → Type 0 where
    no_more : {s : Sched} → Turns user [] s s
    turn :
        {p : ℕ} {ps : List ℕ} {s s' : Sched} {r : Bool × Sched}
        → resume user p (pop s) ≡ some r
        → Turns user ps r.1 s'
        → Turns user (p ∷ ps) s s'

  module _ (user : ℕ → Sched → Sched) where
    pub run_ready_fault :
        (f p last : ℕ) (ps : List ℕ) (s : Sched)
        → s.ready_q ≡ p ∷ ps
        → resume user p (pop s) ≡ none
        → run_ready user (suc f) last s ≡ fault
    unfolding run_ready
    run_ready_fault f p last ps s e freed = ground (arith, freed, e)

    pub run_ready_round :
        (f p last : ℕ) (ps : List ℕ) (s : Sched) {r : Bool × Sched}
        → s.ready_q ≡ p ∷ ps
        → resume user p (pop s) ≡ some r
        → run_ready user (suc f) last s ≡ (if p == last then ran r.1 else run_ready user f last r.1)
    unfolding run_ready
    run_ready_round f p last ps s e went = ground (arith, went, e)

  module _ (user : ℕ → Sched → Sched)
      (grows : (p : ℕ) (s : Sched) → Grows s.ready_q (user p s).ready_q) where
    resume-Grows :
        (p : ℕ) (s : Sched) {b : Bool} {s' : Sched}
        → resume user p s ≡ some (b, s')
        → Grows s.ready_q s'.ready_q
    unfolding resume
    resume-Grows p s {b} {s'} h = elim (Bool-cases (has p cancelled s)) [
      | inl gone ↦
          let (more, e) = wake_joiner-Grows p s in
          (more, resume_cancelled-ready p s {s' = s'} (ground (arith, h, gone)) ∙ e)
      | inr alive ↦
          let back : Sched = record (user p (prepare p s)) { current_lthread = 0 } in
          let (m, e) = resume_after-Grows p back in
          let (n, f) = grows p (prepare p s) in
          let same : (resume_after p back).1 ≡ s' = ground (arith, h, alive) in
          (
            n ++ m,
            ap (λ (x : Sched). x.ready_q) (sym same)
                ∙ e
                ∙ ap (λ l. l ++ m) (f ∙ ap (λ l. l ++ n) (prepare-ready p s))
                ∙ append_assoc s.ready_q n m,
          )
    ]

    -- what the queue grows to, behind the threads that are still to run
    still_ahead :
        (p : ℕ) (ps more : List ℕ) (s : Sched) {r : Bool × Sched}
        → s.ready_q ≡ p ∷ (ps ++ more)
        → resume user p (pop s) ≡ some r
        → (new : List ℕ) × (r.1.ready_q ≡ ps ++ new)
    still_ahead p ps more s {r} e went =
        let (new, g) = resume-Grows p (pop s) {b = r.0} {s' = r.1} went in
        (more ++ new, g ∙ ap (λ l. rest_of l ++ new) e ∙ append_assoc ps more new)

    run_ready-Turns :
        (init : List ℕ) (last : ℕ) (more : List ℕ) (s : Sched)
        → is_among last init ≡ false
        → s.ready_q ≡ (init ++ last ∷ []) ++ more
        → (run_ready user (suc (length init)) last s ≡ fault)
          ⊎ ((s' : Sched) × (run_ready user (suc (length init)) last s ≡ ran s')
              × Turns user (init ++ last ∷ []) s s')
    run_ready-Turns [] last more s new e = elim (Option-cases (resume user last (pop s))) [
      | inl freed ↦ inl (run_ready_fault user 0 last last more s e freed)
      | inr (r, went) ↦
          inr
            (r.1, run_ready_round user 0 last last more s e went ∙ ground arith, turn went no_more)
    ]
    run_ready-Turns (p ∷ ps) last more s new e = elim (Option-cases (resume user p (pop s))) [
      | inl freed ↦
          inl (run_ready_fault user (suc (length ps)) p last ((ps ++ last ∷ []) ++ more) s e freed)
      | inr (r, went) ↦
          let (new_, ahead) = still_ahead p (ps ++ last ∷ []) more s e went in
          let go : run_ready user (suc (suc (length ps))) last s
              ≡ run_ready user (suc (length ps)) last r.1 =
            run_ready_round user (suc (length ps)) p last ((ps ++ last ∷ []) ++ more) s e went
            ∙ ground (arith, new) in
          elim (run_ready-Turns ps last new_ r.1 (ground (arith, new)) ahead) [
            | inl failed ↦ inl (go ∙ failed)
            | inr (s', ran_, turns) ↦ inr (s', go ∙ ran_, turn went turns)
          ]
    ]

    -- Let the threads add to the ready queue only behind those that stand in it, and let its last
    -- thread stand in it once. Then step 2 of lthread_run, with as much fuel as there are ready
    -- threads, resumes each of them once and in order and then stops, or reads freed memory.
    pub run_ready_lem :
        (init : List ℕ) (last : ℕ) (s : Sched)
        → is_among last init ≡ false
        → s.ready_q ≡ init ++ last ∷ []
        → (run_ready user (suc (length init)) last s ≡ fault)
          ⊎ ((s' : Sched) × (run_ready user (suc (length init)) last s ≡ ran s')
              × Turns user (init ++ last ∷ []) s s')
    run_ready_lem init last s new e =
        run_ready-Turns init last [] s new (e ∙ sym (append-nil (init ++ last ∷ [])))
