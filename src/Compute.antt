-- ===== src/Compute.antt =====
-- Compute threads: src/lthread_compute.c. A compute scheduler is a pthread with a queue of threads
-- that it runs until they call `lthread_compute_end`. The mutexes make each function below one step
-- to the other pthreads; what user code does in between is not part of them.
pub mod Owners
pub mod Drain
use lthread.Base.{
  ℕ, zero, suc, ◌+◌, Bool, true, false, Option, none, some, List, [], ◌∷◌, ◌==◌, ◌||◌,
  if◌then◌else◌, push_back, remove, update,
}
use lthread.Rb.{RbTree}
use lthread.Sched.State.{pending_runcompute, runcompute, Sched, has, raise_bit, drop_bit}
use lthread.Thread.{compute_add}

-- the first compute scheduler of the list whose `compute_st` is LT_COMPUTE_FREE
unfoldable pub first_free : (ℕ → Bool) → List ℕ → Option ℕ
first_free free [] = none
first_free free (c ∷ cs) = if free c then some c else first_free free cs

-- the first of the list, if no scheduler can be created
abbrev pub first_of : (ℕ → Bool) → List ℕ → Option (ℕ × List ℕ × (ℕ → Bool))
first_of free [] = none
first_of free (c ∷ cs) = some (c, c ∷ cs, free)

-- The compute scheduler that `lthread_compute_begin` takes, the list then, and who is free then.
-- `created` is what `_lthread_compute_sched_create` returns, and is looked at only if none is free.
-- Its memory is zeroed, which is LT_COMPUTE_BUSY.
unfoldable pub choose : (ℕ → Bool) → List ℕ → Option ℕ → Option (ℕ × List ℕ × (ℕ → Bool))
unfolding first_free
choose free cs created = elim (first_free free cs) [
  | some c ↦ some (c, cs, free)
  | none ↦ elim created [ some c ↦ some (c, c ∷ cs, update free c false) | none ↦ first_of free cs ]
]

module _ ⦃T : RbTree⦄ where
  -- `compute_scheds`, the fields of each `struct lthread_compute_sched` by its address, the field
  -- `compute_sched` of each thread, and how often the poller was triggered.
  pub record Pool : Type 0 where
    pub sched : Sched
    pub compute_scheds : List ℕ
    pub lthreads : ℕ → List ℕ
    pub current : ℕ → Option ℕ
    pub free : ℕ → Bool
    pub home : ℕ → ℕ
    pub triggers : ℕ

  -- The thread is queued and marked; it yields next.
  abbrev pub enqueue : ℕ → ℕ × List ℕ × (ℕ → Bool) → Pool → Pool
  enqueue p (c, cs, free) w = record w {
    compute_scheds = cs;
    free = free;
    home = update w.home p c;
    lthreads = update w.lthreads c (push_back (w.lthreads c) p);
    sched = raise_bit p pending_runcompute w.sched;
  }

  -- `lthread_compute_begin` of the running thread, up to its switch; none is the return value -1.
  unfoldable pub compute_begin : Option ℕ → Pool → Option Pool
  unfolding choose
  compute_begin created w = elim (choose w.free w.compute_scheds created) [
    | none ↦ none
    | some pick ↦ some (enqueue w.sched.current_lthread pick w)
  ]

  -- `_lthread_compute_add`, when the thread has switched to its scheduler
  unfoldable pub hand_over : ℕ → Pool → Pool
  hand_over p w = record w { sched = compute_add p w.sched }

  -- What the inner loop of `_lthread_compute_run` does next: it has no work, it looks again because the
  -- first thread has not left its scheduler yet, or it takes that thread and switches to it.
  pub data Work : Type 0 where
    no_work look_again : Work
    takes : ℕ → Pool → Work

  abbrev pub take_first : ℕ → List ℕ → Pool → Work
  take_first c [] w = no_work
  take_first c (p ∷ ps) w =
      if has p pending_runcompute w.sched
      then look_again
      else takes p (record w {
        lthreads = update w.lthreads c ps;
        current = update w.current c (some p);
        free = update w.free c false;
      })

  unfoldable pub worker_take : ℕ → Pool → Work
  worker_take c w = take_first c (w.lthreads c) w

  -- `lthread_compute_end` switches back, and the thread goes to the deferred queue of its scheduler.
  unfoldable pub worker_give : ℕ → ℕ → Pool → Pool
  worker_give c p w = record w {
    current = update w.current c none;
    free = update w.free c true;
    sched = drop_bit p runcompute (record w.sched { defer_q = push_back w.sched.defer_q p });
    triggers = w.triggers + 1;
  }

  -- After 60 seconds without a signal: true if the compute scheduler has left the list and is freed.
  abbrev pub quit_if : List ℕ → ℕ → Pool → Bool × Pool
  quit_if [] c w = (true, record w { compute_scheds = remove c w.compute_scheds })
  quit_if (p ∷ ps) c w = (false, w)

  unfoldable pub worker_timeout : ℕ → Pool → Bool × Pool
  worker_timeout c w = quit_if (w.lthreads c) c w
