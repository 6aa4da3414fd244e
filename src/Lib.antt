-- ===== src/Lib.antt =====
-- A model of lthread, a coroutine library in C with a cooperative scheduler, and proofs about it.
--
-- The parts, and the files that model them (paths from the repository's root):
--
-- - Fifo (fifo.c, fifo.h in src): the circular buffer of a buffered channel, `queue_t`.
-- - Sched.State (src/lthread_int.h): threads, their state bits and the scheduler, with the memory
--   that the functions read and write. `lt->state` is a function from states to Booleans, BIT and
--   CLEARBIT are `set_bit` and `clear_bit`.
-- - Sched.Sleep (src/lthread_sched.c): the sleep tree. _lthread_sched_sleep is `sched_sleep_begin`
--   up to its yield and `sched_sleep_end` after it, _lthread_desched_sleep is `desched_sleep`.
-- - Sched.Event (src/lthread_sched.c): waits for descriptors. _lthread_sched_event is
--   `sched_event_begin` and `sched_event_end`.
-- - Thread (src/lthread.c): create, resume, cancel, join, exit, sleep, wakeup, detach.
-- - Cond and Mutex (src/lthread.c): condition variables, and the recursive lock over them.
-- - Run (src/lthread_sched.c): the passes of lthread_run over expired, ready and deferred threads, and
--   Run.Loop the loop around them and the poller.
-- - Chan (src/chan.c): channels and select, over Cond and Fifo, and the typed operations. A message
--   is the pointer that is sent.
-- - Socket (src/lthread_socket.c): the retry loops of the socket calls. The kernel is a parameter:
--   its state, and what a call answers; `others` is what happens between a yield and a resumption.
--   Socket.File is the sendfile of FreeBSD.
-- - Poll (src/lthread_socket.c, src/lthread_poller.c, src/lthread_sched.c): lthread_poll, and how an
--   event of the poller reaches the thread that waits for it.
-- - Compute (src/lthread_compute.c): compute schedulers. `compute_begin` and `hand_over` are what a
--   thread and its scheduler do, `worker_take` and `worker_give` the two halves of a round of
--   _lthread_compute_run, `worker_timeout` its end.
-- - Io (src/lthread_io.c): requests to the I/O workers; Io.Wakeup has their interleavings.
-- - Dns (src/dns/cdns.c): Dns.Query builds the query, Dns.Name is parse_dns_name, Dns.Reply reads a
--   reply, Dns.Answer has the form of its answers, Dns.Lookup is dns_lookup, Dns.Conf reads
--   resolv.conf. Buffers are lists of bytes, and a read or write behind the end is a result of its
--   own.
-- - Conn (src/mux/tcp_conn.c, src/mux/smux.h): connections over a table of operations; Conn.Dial is
--   tcp_dial_ipv4.
-- - Epoll (src/lthread_epoll.c): registrations of descriptors, over an interface to the kernel that
--   Epoll.Model meets.
-- - Kqueue (src/lthread_kqueue.c): the list of changes and its flush, over an interface to kevent that
--   Kqueue.Model meets.
-- - Switch (src/lthread.c): the assembly of _switch for x86_64 as a list of instructions, on a machine
--   of registers and words in memory; `init_context` is the context that _lthread_init makes.
-- - Stack (src/lthread.c): _lthread_madvise. `stack`, `esp` and the others are fields of the thread.
-- - Pool (src/common/mem.c, src/common/mem.h): the memory pool; `live` has the blocks that calloc gave.
-- - Rb: what the scheduler relies on of the red-black trees of src/tree.h, an interface that every
--   definition over the scheduler takes as an instance argument; Rb.Model meets it by sorted lists.
-- - Base: shared names, Boolean tests and list lemmas. Tests: theorems at concrete inputs, and runs.
--
-- Conventions. A function that yields in its body is split at the yield: `_begin` ends where the
-- thread switches to the scheduler, `_end` or `_resumed` starts where it is resumed. What user code
-- does from its resumption to the next yield is the parameter `user` of `Thread.resume`. Addresses
-- are numbers and NULL is 0; the lists of src/queue.h are sequences. Time is the field `clock`; its
-- differences wrap at 2 ^ 64. A thread that was freed stays in memory with a mark, and a read
-- of a freed thread or joiner in _lthread_resume yields none. A selector has LTHR_SEL_CHANS wait
-- entries; a select that would write behind them ends in `overrun`.
--
-- Fuel. The key search of _lthread_sched_sleep gets one more than the number of sleepers, since each
-- collision is with another sleeper. The passes of Run and the loops of Socket take fuel as an
-- argument; the results below say how much is enough for resume_expired and for send. A name in a
-- DNS message gets fuel for two walks over the buffer, since one pointer is followed; the loops of
-- Conn get one round for each byte. The loop over the resolvers takes fuel as an argument and need
-- not end.
--
-- Not modelled: the assembly for i386; creation of schedulers and pthreads; the triggers of the
-- pollers and the events that a poll reports; the tick counters; the code under #if 0; the
-- libraries copied into src (queue.h, tree.h, klib, common/rbtree).
pub mod Base
pub mod Fifo
pub mod Rb
pub mod Sched
pub mod Thread
pub mod Cond
pub mod Mutex
pub mod Run
pub mod Chan
pub mod Socket
pub mod Poll
pub mod Compute
pub mod Io
pub mod Dns
pub mod Conn
pub mod Epoll
pub mod Switch
pub mod Stack
pub mod Kqueue
pub mod Pool
pub mod Tests
