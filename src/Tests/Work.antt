-- ===== src/Tests/Work.antt =====
-- Connections, compute threads, I/O workers and the epoll poller on small inputs.
use lthread.Base.{
  ℕ, zero, suc, Bool, ◌<◌, ◌≤◌, ◌++◌, ap, min, ◌≡◌, refl, true, false, none, some, List, [], ◌∷◌,
  update, arith,
}
use lthread.Rb.Model.{sorted_list}
use lthread.Sched.State.{Sched, has}
use lthread.Socket.Wait.{
  Errno, eagain, other, Answer, returned_n, error, Result, count, renice_yield,
}
use lthread.Socket.Transfer.{send}
use lthread.Socket.Rounds.{WellBehaved}
use lthread.Conn.{ConnOps, conn_read, readfull, write_loop, tcp_conn_write}
use lthread.Conn.Laws.{ReadOk, FullResult, readfull-FullResult}
use lthread.Conn.Write.{indexes, Logged, AllOrNothing, write_by, tcp_conn_write-AllOrNothing}
use lthread.Compute.{Pool, compute_begin, enqueue, hand_over, first_free, choose}
use lthread.Compute.Owners.{IsOwned, here, next, begins, Reach-IsOwned}
use lthread.Compute.Drain.{IsQuiet, compute_run, compute_run-drains}
use lthread.Io.{writes, bytes, failed, IoWorld, io_begin, served, worker_round, io_end, bit_of}
use lthread.Io.Laws.{io_roundtrip}
use lthread.Io.Wakeup.{idle_worker, stuck, Progress, requests_lost}
use lthread.Io.Wakeup
use lthread.Epoll.Model.{Watched, watched}
use lthread.Tests.Sched.{at_rest}

abbrev one_byte : ℕ → ℕ → Result × List ℕ × ℕ
one_byte zero k = (count 0, [], k)
one_byte (suc n) k = (count 1, k ∷ [], suc k)

-- A connection on which one byte at a time arrives.
abbrev trickle : ConnOps ℕ
trickle = record {
  read = one_byte;
  write = λ n off k. (count n, k);
  close = λ k. k;
  shutdown = λ k. k;
}

trickle-ReadOk : (k v : ℕ) → ReadOk k (conn_read trickle k v).0 (conn_read trickle k v).1
unfolding conn_read
trickle-ReadOk zero v = (refl, omega arith)
trickle-ReadOk (suc k) v = (refl, omega arith)

readfull_example : FullResult 3 (readfull trickle 3 7).0 (readfull trickle 3 7).1
readfull_example = readfull-FullResult trickle 3 7 trickle-ReadOk

readfull_run : readfull trickle 3 7 ≡ (count 3, 7 ∷ 8 ∷ 9 ∷ [], 10)
unfolding readfull
readfull_run = refl

-- A kernel that takes three bytes of what it is asked for, once, and then fails; its state says
-- whether it fails, and which bytes it took.
abbrev Wire : Type 0
Wire = Bool × List ℕ

abbrev breaks : ℕ → ℕ → Wire → Answer × Wire
breaks n off (false, l) = (returned_n (min 3 n), (true, l ++ indexes off (min 3 n)))
breaks n off (true, l) = (error other, (true, l))

breaks-WellBehaved : WellBehaved breaks (λ k. 0)
breaks-WellBehaved = record {
  at_most = at_most;
  some_byte = some_byte;
  calmer = λ n off k. omega arith;
  not_ready = not_ready;
}
  where
    at_most : (n off : ℕ) (k : Wire) (m : ℕ) → (breaks n off k).0 ≡ returned_n m → m ≤ n
    at_most n off (false, l) m h = ground (arith, h)
    at_most n off (true, l) m h = absurd (ground (arith, h))

    some_byte : (n off : ℕ) (k : Wire) → (breaks n off k).0 ≡ returned_n zero → n ≡ 0
    some_byte n off (false, l) h = ground (arith, h)
    some_byte n off (true, l) h = absurd (ground (arith, h))

    not_ready : (n off : ℕ) (k : Wire) → (breaks n off k).0 ≡ error eagain → 0 < 0
    not_ready n off (false, l) h = absurd (ground (arith, h))
    not_ready n off (true, l) h = absurd (ground (arith, h))

breaks-Logged : Logged breaks (λ k. k.1)
breaks-Logged = record { took = took; failed = failed }
  where
    took :
        (n off m : ℕ) (k : Wire)
        → (breaks n off k).0 ≡ returned_n m
        → (breaks n off k).1.1 ≡ k.1 ++ indexes off m
    took n off m (false, l) h = ap (λ x. l ++ indexes off x) (ground (arith, h))
    took n off m (true, l) h = absurd (ground (arith, h))

    failed :
        (n off : ℕ) (e : Errno) (k : Wire)
        → (breaks n off k).0 ≡ error e
        → (breaks n off k).1.1 ≡ k.1
    failed n off e (false, l) h = absurd (ground (arith, h))
    failed n off e (true, l) h = refl

abbrev undisturbed : Sched → Wire → Sched × Wire
undisturbed s k = (s, k)

tcp_conn_write_example :
    AllOrNothing
      (λ k. k.1)
      []
      10
      (tcp_conn_write (write_by undisturbed 4 3 breaks 20) 10 (at_rest, (false, [])))
tcp_conn_write_example =
    tcp_conn_write-AllOrNothing undisturbed 4 3 breaks 20 (λ k. 0) (λ k. k.1) 10 at_rest (false, [])
      breaks-WellBehaved breaks-Logged (λ t j. (omega arith, refl)) (omega arith)

-- Three bytes are gone, and 0 is returned.
tcp_conn_write_run :
    let out = tcp_conn_write (write_by undisturbed 4 3 breaks 20) 10 (at_rest, (false, [])) in
    (out.0 ≡ count 0) × (out.1.1.1 ≡ 0 ∷ 1 ∷ 2 ∷ [])
unfolding tcp_conn_write write_loop send renice_yield lthread.Thread.renice
tcp_conn_write_run = (refl, refl)

-- no compute scheduler yet
abbrev no_pool : Pool
no_pool = record {
  sched = at_rest;
  compute_scheds = [];
  lthreads = λ c. [];
  current = λ c. none;
  free = λ c. true;
  home = λ p. 0;
  triggers = 0;
}

-- Thread 1 asks for a computation, and scheduler 50 is created for it.
abbrev one_queued : Pool
one_queued = enqueue 1 (50, 50 ∷ [], update no_pool.free 50 false) no_pool

no_pool-IsOwned : IsOwned no_pool
no_pool-IsOwned = record { no_queue = λ c e. refl; no_current = λ c e. refl }

Reach-IsOwned_example : IsOwned one_queued
unfolding compute_begin choose first_free
Reach-IsOwned_example = Reach-IsOwned no_pool-IsOwned (next here (begins (some 50) one_queued refl))

does_nothing-IsQuiet : IsQuiet (λ p w. w)
does_nothing-IsQuiet = record {
  same_lthreads = λ p w. refl;
  same_defer = λ p w. refl;
  same_pending = λ p q w. refl;
}

compute_run_example :
    ((compute_run (λ p w. w) 1 50 (hand_over 1 one_queued)).lthreads 50 ≡ [])
    × ((compute_run (λ p w. w) 1 50 (hand_over 1 one_queued)).sched.defer_q ≡ 1 ∷ [])
unfolding hand_over
compute_run_example =
    compute_run-drains (λ p w. w) 50 (1 ∷ []) (hand_over 1 one_queued) does_nothing-IsQuiet refl
      (refl, tt)

abbrev io_rest : IoWorld
io_rest = record {
  sched = at_rest;
  io = λ p. record { buf = 0; nbytes = 0; io_fd = 0; ret = bytes 0 };
  queue = λ i. [];
  io_selector = 1;
  errno = 0;
  triggers = 0;
}

-- Thread 1 writes, and EBADF is the answer.
io_roundtrip_example :
    (w' : IoWorld) × (worker_round (λ d r. failed 9) 1 (io_begin writes 5 100 8 io_rest)
      ≡ served 1 w')
    × (w'.queue 1 ≡ [])
    × (w'.sched.defer_q ≡ 1 ∷ [])
    × ((io_end writes 1 w').0 ≡ failed 9)
    × ((io_end writes 1 w').1.errno ≡ 9)
    × (has 1 (bit_of writes) (io_end writes 1 w').1.sched ≡ false)
io_roundtrip_example = io_roundtrip (λ d r. failed 9) writes 5 100 8 io_rest refl refl

requests_lost_example :
    Wakeup.Reach idle_worker (stuck (7 ∷ 8 ∷ []))
    × ((v : Wakeup.Worker) → Progress (stuck (7 ∷ 8 ∷ [])) v → ⊥)
requests_lost_example = requests_lost (7 ∷ 8 ∷ [])

abbrev unwatched : Watched
unwatched = λ fd. none
