-- ===== src/Tests/Sync.antt =====
-- Threads, condition variables and locks of src/lthread.c, and the loop of src/lthread_sched.c, on
-- small inputs.
use lthread.Base.{ℕ, ◌≡◌, refl, some, none, [], ◌∷◌, arith, ◌==◌, if◌then◌else◌}
use lthread.Rb.{insert_entry, remove_entry}
use lthread.Rb.Model.{sorted_list}
use lthread.Sched.State.{no_flags, set_bit, Sched, cancelled, detach}
use lthread.Sched.Sleep.{sched_busy_sleep_begin, insert_sleeper}
use lthread.Thread.{lthread_exit, lthread_join_begin, JoinStep, finished, waits}
use lthread.Thread.Laws.{join_exit}
use lthread.Mutex.{Mutex, mutex_lock}
use lthread.Mutex.Exclusion.{Shared, Reach, here, next, locks, lock_exclusive}
use lthread.Run.{resume_expired}
use lthread.Run.Total.{resume_expired_total, Settled}
use lthread.Tests.Sched.{idle, at_rest, napping, napping-Agrees}

-- Thread 2 is cancelled and detached.
abbrev doomed : Sched
doomed = record at_rest {
  lt = λ q. record idle { state = set_bit cancelled (set_bit detach no_flags) };
}

abbrev join_state : JoinStep → Sched
join_state (finished r s) = s
join_state (waits none) = at_rest
join_state (waits (some s)) = s

-- Thread 1 joins on thread 2, with cell 90, for at most 50 ms.
abbrev joining : Sched
joining = join_state (lthread_join_begin 2 90 50 at_rest)

join_exit_example : (lthread_exit 77 (record joining { current_lthread = 2 })).cells 90 ≡ 77
unfolding lthread_join_begin sched_busy_sleep_begin insert_sleeper insert_entry
join_exit_example =
    join_exit 2 90 50 77 at_rest (omega arith) (omega arith) (omega arith) (omega arith) refl

-- Threads 4 and 5 are blocked on the condition variable 20.
abbrev crowded : Sched
crowded = record napping { blocked = λ c. if c == 20 then 4 ∷ 5 ∷ [] else [] }

abbrev free_lock : Mutex
free_lock = record { c = 30; locked = 0; owner = 0 }

abbrev unheld : Shared
unheld = record { mutex = free_lock; held = λ i. 0 }

-- The thread with id 0 locks.
abbrev held_once : Shared
held_once = record {
  mutex = record { c = 30; locked = 1; owner = 0 };
  held = λ i. if 0 == i then 1 else 0;
}

held_once-Reach : Reach unheld held_once
unfolding mutex_lock
held_once-Reach = next here (locks at_rest refl)

lock_exclusive_example : (◌≡◌ {A = ℕ} 0 0) × (held_once.mutex.locked ≡ held_once.held 0)
lock_exclusive_example =
    lock_exclusive 0 0 (record { own = refl; others = λ i ne. refl }) held_once-Reach (omega arith)
      (omega arith)

-- A state in which the running thread has the id 6.
abbrev other : Sched
other = record at_rest { lt = λ q. record idle { id = 6 } }

-- At the scheduler time 7000 thread 4 is overdue.
resume_expired_example : Settled 7000 (resume_expired (λ p s. s) 2 7000 napping)
unfolding lthread.Rb.Laws.count_upto
resume_expired_example =
    resume_expired_total (λ p s. s) 2 7000 napping (λ q t a. a) (λ q t. omega arith) napping-Agrees
      (omega arith)
