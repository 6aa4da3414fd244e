-- ===== src/Compute/Owners.antt =====
-- The compute schedulers of src/lthread_compute.c while threads come and go.
use lthread.Base.{
  ℕ, ◌≡◌, ◌≢◌, refl, ap, sym, ◌∙◌, subst, Bool, true, false, Bool-cases, Option-cases, inl, inr,
  Option, none, some, List, [], ◌∷◌, ◌==◌, ◌||◌, arith, remove, update, ==_eq,
}
use lthread.Rb.{RbTree}
use lthread.Sched.State.{Sched, has, pending_runcompute}
use lthread.Compute.{
  first_free, choose, Pool, enqueue, compute_begin, takes, worker_take, take_first, worker_give,
  worker_timeout, quit_if,
}

pub contains : List ℕ → ℕ → Bool
contains [] c = false
contains (x ∷ xs) c = x == c || contains xs c

contains-remove : (x c : ℕ) (cs : List ℕ) → x ≢ c → contains (remove x cs) c ≡ contains cs c
unfolding contains remove
contains-remove x c [] ne = refl
contains-remove x c (y ∷ ys) ne = ground (arith, contains-remove x c ys ne)

first_free-contains :
    (free : ℕ → Bool) (cs : List ℕ) {c : ℕ} → first_free free cs ≡ some c → contains cs c ≡ true
unfolding first_free contains
first_free-contains free [] h = absurd (grind (arith, h))
first_free-contains free (x ∷ xs) {c} h = elim (Bool-cases (free x)) [
  | inl yes_ ↦ ground (arith, h, yes_)
  | inr no_ ↦ ground (arith, h, no_, first_free-contains free xs {c = c})
]

chosen :
    (free : ℕ → Bool) (x : ℕ) (xs : List ℕ) (created : Option ℕ) {c : ℕ} {ds : List ℕ}
    {fr : ℕ → Bool}
    → first_free free (x ∷ xs) ≡ none
    → choose free (x ∷ xs) created ≡ some (c, ds, fr)
    → (contains ds c ≡ true) × ((d : ℕ) → contains ds d ≡ false → contains (x ∷ xs) d ≡ false)
unfolding contains choose
chosen free x xs none f h = ground (arith, f, h)
chosen free x xs (some y) f h = (ground (arith, f, h), λ d e. ground (arith, f, h, e))

-- The chosen scheduler is in the list then, and nobody has left it.
choose-contains :
    (free : ℕ → Bool) (cs : List ℕ) (created : Option ℕ) {c : ℕ} {ds : List ℕ} {fr : ℕ → Bool}
    → choose free cs created ≡ some (c, ds, fr)
    → (contains ds c ≡ true) × ((d : ℕ) → contains ds d ≡ false → contains cs d ≡ false)
unfolding choose contains
choose-contains free [] none h = absurd (grind (arith, h))
choose-contains free [] (some d) h = ground (arith, h)
choose-contains free (x ∷ xs) created {c} h = elim (Option-cases (first_free free (x ∷ xs))) [
  | inl f ↦ chosen free x xs created f h
  | inr (d, f) ↦ ground (arith, h, f, first_free-contains free (x ∷ xs) f)
]

module _ ⦃T : RbTree⦄ where
  -- A compute scheduler that has left the list has no thread, queued or running.
  pub record IsOwned (w : Pool) : Type 0 where
    pub no_queue : (c : ℕ) → contains w.compute_scheds c ≡ false → w.lthreads c ≡ []
    pub no_current : (c : ℕ) → contains w.compute_scheds c ≡ false → w.current c ≡ none

  -- The steps of schedulers and compute schedulers, interleaved. `works` is any other step: of user
  -- code, or of a scheduler between these.
  pub data Step (w : Pool) : Pool → Type 0 where
    begins : (created : Option ℕ) (w' : Pool) → compute_begin created w ≡ some w' → Step w w'
    begins_to_run :
        (c p : ℕ) (w' : Pool)
        → contains w.compute_scheds c ≡ true
        → worker_take c w ≡ takes p w'
        → Step w w'
    ends : (c p : ℕ) → w.current c ≡ some p → Step w (worker_give c p w)
    times_out : (c : ℕ) → w.current c ≡ none → Step w (worker_timeout c w).1
    works : (s : Sched) → Step w (record w { sched = s })

  pub data Reach (w : Pool) : Pool → Type 0 where
    here : Reach w w
    next : {u v : Pool} → Reach w u → Step u v → Reach w v

  enqueue-IsOwned :
      (p c : ℕ) (ds : List ℕ) (fr : ℕ → Bool) (w : Pool)
      → contains ds c ≡ true
      → ((d : ℕ) → contains ds d ≡ false → contains w.compute_scheds d ≡ false)
      → IsOwned w
      → IsOwned (enqueue p (c, ds, fr) w)
  enqueue-IsOwned p c ds fr w picked wider o = record {
    no_queue = λ d e. ground (arith, picked, e, wider d, o.no_queue d);
    no_current = λ d e. o.no_current d (wider d e);
  }

  begun :
      (created : Option ℕ) (w : Pool) {w' : Pool}
      → compute_begin created w ≡ some w'
      → (c : ℕ) × (ds : List ℕ) × (fr : ℕ → Bool) × (choose w.free w.compute_scheds created
          ≡ some (c, ds, fr))
        × (w' ≡ enqueue w.sched.current_lthread (c, ds, fr) w)
  unfolding compute_begin
  begun created w h = elim (Option-cases (choose w.free w.compute_scheds created)) [
    | inl f ↦ absurd (grind (arith, h, f))
    | inr ((c, ds, fr), f) ↦ (c, ds, fr, f, ground (arith, h, f))
  ]

  take_first-IsOwned :
      (c p : ℕ) (ps : List ℕ) (w : Pool) {w' : Pool}
      → contains w.compute_scheds c ≡ true
      → take_first c ps w ≡ takes p w'
      → IsOwned w
      → IsOwned w'
  take_first-IsOwned c p [] w member h o = absurd (grind (arith, h))
  take_first-IsOwned c p (q ∷ ps) w {w'} member h o =
      elim (Bool-cases (has q pending_runcompute w.sched)) [
        | inl pending ↦ absurd (grind (arith, h, pending))
        | inr left ↦
            let e : w' ≡ record w {
              lthreads = update w.lthreads c ps;
              current = update w.current c (some q);
              free = update w.free c false;
            } =
              ground (arith, h, left) in
            rw e (record {
              no_queue = λ d f. ground (arith, member, f, o.no_queue d);
              no_current = λ d f. ground (arith, member, f, o.no_current d);
            })
      ]

  give-IsOwned : (c p : ℕ) (w : Pool) → IsOwned w → IsOwned (worker_give c p w)
  unfolding worker_give
  give-IsOwned c p w o = record {
    no_queue = o.no_queue;
    no_current = λ d f. ground (arith, o.no_current d f);
  }

  quit-IsOwned :
      (c : ℕ) (ps : List ℕ) (w : Pool)
      → w.lthreads c ≡ ps
      → w.current c ≡ none
      → IsOwned w
      → IsOwned (quit_if ps c w).1
  quit-IsOwned c [] w e idle o = record {
    no_queue = λ d f. elim (Bool-cases (c == d)) [
      | inl same ↦ ap w.lthreads (sym (==_eq c d same)) ∙ e
      | inr other ↦
          o.no_queue d (sym (contains-remove c d w.compute_scheds (ground (arith, other))) ∙ f)
    ];
    no_current = λ d f. elim (Bool-cases (c == d)) [
      | inl same ↦ ap w.current (sym (==_eq c d same)) ∙ idle
      | inr other ↦
          o.no_current d (sym (contains-remove c d w.compute_scheds (ground (arith, other))) ∙ f)
    ];
  }
  quit-IsOwned c (p ∷ ps) w e idle o = o

  Step-IsOwned : {u v : Pool} → Step u v → IsOwned u → IsOwned v
  unfolding worker_take worker_timeout
  Step-IsOwned {u = u} (begins created w' h) o =
      let (c, ds, fr, f, e) = begun created u h in
      let (picked, wider) = choose-contains u.free u.compute_scheds created f in
      subst IsOwned (sym e) (enqueue-IsOwned u.sched.current_lthread c ds fr u picked wider o)
  Step-IsOwned {u = u} (begins_to_run c p w' member h) o =
      take_first-IsOwned c p (u.lthreads c) u member h o
  Step-IsOwned {u = u} (ends c p h) o = give-IsOwned c p u o
  Step-IsOwned {u = u} (times_out c h) o = quit-IsOwned c (u.lthreads c) u refl h o
  Step-IsOwned (works s) o = record { no_queue = o.no_queue; no_current = o.no_current }

  -- However the steps of schedulers and compute schedulers interleave, if a compute scheduler that
  -- is not in the list has neither a queued nor a running thread in one state, this holds in every
  -- state reached from it. So one that quits strands no thread.
  pub Reach-IsOwned : {u v : Pool} → IsOwned u → Reach u v → IsOwned v
  Reach-IsOwned o here = o
  Reach-IsOwned o (next r st) = Step-IsOwned st (Reach-IsOwned o r)
