-- ===== src/Io.antt =====
-- Blocking reads and writes on worker pthreads: src/lthread_io.c. The mutexes make each function
-- below one step to the other pthreads. The system calls are a parameter.
pub mod Laws
pub mod Wakeup
use lthread.Base.{
  ℕ, zero, suc, ◌+◌, ◌%◌, Bool, true, false, Option, none, some, List, [], ◌∷◌, ◌==◌, if◌then◌else◌,
  push_back, update,
}
use lthread.Rb.{RbTree}
use lthread.Sched.State.{LthreadSt, wait_io_read, wait_io_write, Sched, has, raise_bit, drop_bit}
use lthread.Sched.Sleep.{yield_begin}

-- IO_WORKERS
abbrev pub io_workers : ℕ
io_workers = 2

-- what read(2) or write(2) returns: a count, or -1 with errno
pub data IoRet : Type 0 where
  bytes : ℕ → IoRet
  failed : ℕ → IoRet

-- `lt->io`; `ret` holds the fields `ret` and `err`.
pub record IoRequest : Type 0 where
  pub buf : ℕ
  pub nbytes : ℕ
  pub io_fd : ℕ
  pub ret : IoRet

pub data Direction : Type 0 where
  reads writes : Direction

abbrev pub bit_of : Direction → LthreadSt
bit_of reads = wait_io_read
bit_of writes = wait_io_write

module _ ⦃T : RbTree⦄ where
  -- The scheduler, `lt->io` of each thread, the queues of the workers, the static `io_selector`, errno
  -- of the scheduler's pthread, and how often the poller was triggered.
  pub record IoWorld : Type 0 where
    pub sched : Sched
    pub io : ℕ → IoRequest
    pub queue : ℕ → List ℕ
    pub io_selector : ℕ
    pub errno : ℕ
    pub triggers : ℕ

  -- `_lthread_io_add` up to its yield
  unfoldable pub io_add : ℕ → IoWorld → IoWorld
  io_add p w = record w {
    sched = yield_begin p (record w.sched { busy_l = p ∷ w.sched.busy_l });
    queue = update w.queue w.io_selector (push_back (w.queue w.io_selector) p);
    io_selector = (w.io_selector + 1) % io_workers;
  }

  -- `lthread_io_read` and `lthread_io_write` up to the yield
  unfoldable pub io_begin : Direction → ℕ → ℕ → ℕ → IoWorld → IoWorld
  unfolding io_add
  io_begin d fd buf nbytes w =
      let p = w.sched.current_lthread in
      io_add p (record w {
        sched = raise_bit p (bit_of d) w.sched;
        io = update w.io p (record (w.io p) { buf = buf; nbytes = nbytes; io_fd = fd });
      })

  -- what the worker puts into `lt->io`, and the thread back to its scheduler
  abbrev pub complete : ℕ → ℕ → List ℕ → IoRet → IoWorld → IoWorld
  complete i p ps r w = record w {
    queue = update w.queue i ps;
    io = update w.io p (record (w.io p) { ret = r });
    sched = record w.sched { defer_q = push_back w.sched.defer_q p };
    triggers = w.triggers + 1;
  }

  -- A round of the inner loop of `_lthread_io_worker`: nothing to do, a failed assertion, or a request
  -- done. `call` is the system call.
  pub data IoWork : Type 0 where
    no_request io_assert : IoWork
    served : ℕ → IoWorld → IoWork

  abbrev pub serve_first : (Direction → IoRequest → IoRet) → ℕ → List ℕ → IoWorld → IoWork
  serve_first call i [] w = no_request
  serve_first call i (p ∷ ps) w =
      if has p wait_io_read w.sched
      then served p (complete i p ps (call reads (w.io p)) w)
      else if has p wait_io_write w.sched
      then served p (complete i p ps (call writes (w.io p)) w)
      else io_assert

  unfoldable pub worker_round : (Direction → IoRequest → IoRet) → ℕ → IoWorld → IoWork
  worker_round call i w = serve_first call i (w.queue i) w

  abbrev pub errno_of : IoRet → ℕ → ℕ
  errno_of (bytes n) e = e
  errno_of (failed err) e = err

  -- the end of `_lthread_io_add`, `lthread_io_read` and `lthread_io_write`
  unfoldable pub io_end : Direction → ℕ → IoWorld → IoRet × IoWorld
  io_end d p w = (
    (w.io p).ret,
    record w { errno = errno_of (w.io p).ret w.errno; sched = drop_bit p (bit_of d) w.sched },
  )
