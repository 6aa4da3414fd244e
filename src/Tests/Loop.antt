-- ===== src/Tests/Loop.antt =====
-- The loop of `lthread_run` on small inputs.
use lthread.Base.{ℕ, ◌≡◌, ◌⊎◌, refl, false, List, [], ◌∷◌, arith, push_back}
use lthread.Rb.Model.{sorted_list}
use lthread.Sched.State.{Sched, make_ready}
use lthread.Run.{no_threads, Timespec, ran, fault, run_ready}
use lthread.Run.Pass.{Turns, Grows, run_ready_lem}
use lthread.Run.Loop.{PollerEvent, still_running, lthread_run}
use lthread.Run.Loop.Starve.{Spins, lthread_run_starves}
use lthread.Thread.{resume}
use lthread.Sched.Sleep.{min_timeout}
use lthread.Poll.{Polls}
use lthread.Tests.Sched.{at_rest}

-- Each thread goes back to the end of the ready queue.
abbrev again : ℕ → Sched → Sched
again p s = make_ready p s

again-Grows : (p : ℕ) (s : Sched) → Grows s.ready_q (again p s).ready_q
again-Grows p s = (p ∷ [], refl)

abbrev three_ready : Sched
three_ready = record at_rest { ready_q = 4 ∷ 5 ∷ 6 ∷ [] }

run_ready_example :
    (run_ready again 3 6 three_ready ≡ fault)
    ⊎ ((s' : Sched) × (run_ready again 3 6 three_ready ≡ ran s')
        × Turns again (4 ∷ 5 ∷ 6 ∷ []) three_ready s')
run_ready_example = run_ready_lem again again-Grows (4 ∷ 5 ∷ []) 6 three_ready (ground arith) refl

pushed_some : (ps : List ℕ) (p : ℕ) → no_threads (push_back ps p) ≡ false
pushed_some [] p = refl
pushed_some (q ∷ qs) p = refl

again-Spins : Spins again
again-Spins p s calm = (calm, pushed_some s.ready_q p)

abbrev one_spins : Polls
one_spins = record {
  sched = record at_rest { ready_q = 4 ∷ [] };
  pollfds = λ p. [];
  ready_fds = λ p. 0;
}

-- A poller that has nothing, and one that always has an event of descriptor 7.
abbrev silent : Timespec → Polls → List PollerEvent × Polls
silent t w = ([], w)

abbrev eager : Timespec → Polls → List PollerEvent × Polls
eager t w = (record { event_fd = 7; is_eof = false } ∷ [], w)

lthread_run_starves_example :
    lthread_run again 3 silent 10 50 one_spins ≡ lthread_run again 3 eager 10 50 one_spins
lthread_run_starves_example =
    lthread_run_starves again again-Spins 3 10 50 silent eager one_spins ((λ q. refl), refl)

-- Three rounds in which the thread runs each time.
lthread_run_run :
    lthread_run again 3 eager 10 3 one_spins
    ≡ still_running (record {
      sched = record at_rest { ready_q = 4 ∷ []; current_lthread = 0 };
      pollfds = λ p. [];
      ready_fds = λ p. 0;
    })
unfolding lthread_run resume min_timeout
lthread_run_run = refl
