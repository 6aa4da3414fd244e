-- ===== src/Io/Laws.antt =====
-- A request of src/lthread_io.c from the thread to a worker and back.
use lthread.Base.{ℕ, ◌≡◌, false, [], arith, push_back}
use lthread.Rb.{RbTree}
use lthread.Sched.State.{wait_io_read, has}
use lthread.Io.{
  IoRet, IoRequest, Direction, reads, writes, bit_of, complete, IoWorld, io_add, io_begin, served,
  worker_round, io_end, errno_of,
}

module _ ⦃T : RbTree⦄ where
  abbrev pub begun : ℕ → ℕ → ℕ → IoWorld → IoRequest
  begun fd buf nbytes w = record (w.io w.sched.current_lthread) {
    buf = buf;
    nbytes = nbytes;
    io_fd = fd;
  }

  -- Let the queue of the selected worker be empty and the running thread not wait for a read. After
  -- lthread_io_read or lthread_io_write yields, one round of that worker performs the system call
  -- with the descriptor, buffer and size given, empties its queue and appends the thread to the
  -- deferred queue. Resumed, the thread returns what the system call returned, has errno set when
  -- that was -1, and has its state bit cleared.
  pub io_roundtrip :
      (call : Direction → IoRequest → IoRet) (d : Direction) (fd buf nbytes : ℕ) (w : IoWorld)
      → w.queue w.io_selector ≡ []
      → has w.sched.current_lthread wait_io_read w.sched ≡ false
      → let p = w.sched.current_lthread in
        let r = call d (begun fd buf nbytes w) in
        (w' : IoWorld) × (worker_round call w.io_selector (io_begin d fd buf nbytes w)
          ≡ served p w')
        × (w'.queue w.io_selector ≡ [])
        × (w'.sched.defer_q ≡ push_back w.sched.defer_q p)
        × ((io_end d p w').0 ≡ r)
        × ((io_end d p w').1.errno ≡ errno_of r w.errno)
        × (has p (bit_of d) (io_end d p w').1.sched ≡ false)
  unfolding io_add io_begin worker_round io_end
  io_roundtrip call reads fd buf nbytes w empty idle = (
    complete w.io_selector w.sched.current_lthread [] (call reads (begun fd buf nbytes w))
        (io_begin reads fd buf nbytes w),
    ground arith,
    ground arith,
    ground arith,
    ground arith,
    ground arith,
    ground arith,
  )
  io_roundtrip call writes fd buf nbytes w empty idle = (
    complete w.io_selector w.sched.current_lthread [] (call writes (begun fd buf nbytes w))
        (io_begin writes fd buf nbytes w),
    ground arith,
    ground arith,
    ground arith,
    ground arith,
    ground arith,
    ground arith,
  )
