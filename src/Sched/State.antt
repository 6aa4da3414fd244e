-- ===== src/Sched/State.antt =====
-- The data of src/lthread_int.h: thread states, threads and the scheduler.
use lthread.Base.{
  ℕ, ◌+◌, ◌-◌, ◌%◌, ◌^◌, Bool, true, false, Option, some, List, ◌==◌, if◌then◌else◌, push_back,
  update,
}
use lthread.Rb.{RbTree}

pub data LthreadSt : Type 0 where
  wait_read wait_write new ready exited busy sleeping expired fdeof detach cancelled : LthreadSt
  pending_runcompute runcompute wait_io_read wait_io_write wait_multi : LthreadSt

-- the position of a state in the enumeration, which BIT(x) shifts by
abbrev pub position : LthreadSt → ℕ
position wait_read = 0
position wait_write = 1
position new = 2
position ready = 3
position exited = 4
position busy = 5
position sleeping = 6
position expired = 7
position fdeof = 8
position detach = 9
position cancelled = 10
position pending_runcompute = 11
position runcompute = 12
position wait_io_read = 13
position wait_io_write = 14
position wait_multi = 15

-- `lt->state`, a bit for each state
abbrev pub Flags : Type 0
Flags = LthreadSt → Bool

-- state |= BIT(b)
abbrev pub set_bit : LthreadSt → Flags → Flags
set_bit b f c = if position c == position b then true else f c

-- state &= CLEARBIT(b)
abbrev pub clear_bit : LthreadSt → Flags → Flags
clear_bit b f c = if position c == position b then false else f c

abbrev pub no_flags : Flags
no_flags c = false

pub data LthreadEvent : Type 0 where
  ev_read ev_write : LthreadEvent

-- `struct lthread`, without its machine context and stack, and without the fields of poll(2), of
-- the I/O workers and of the compute threads. Addresses are numbers, NULL is 0. `fd_wait` is none
-- where the C field holds -1.
pub record Lthread : Type 0 where
  pub state : Flags
  pub func : ℕ
  pub arg : ℕ
  pub user_data : ℕ
  pub birth : ℕ
  pub id : ℕ
  pub fd_wait : Option ℕ
  pub lt_join : ℕ
  pub lt_exit_ptr : ℕ
  pub ops : ℕ
  pub sleep_usecs : ℕ

-- what calloc returns
abbrev pub zeroed : Lthread
zeroed = record {
  state = no_flags;
  func = 0;
  arg = 0;
  user_data = 0;
  birth = 0;
  id = 0;
  fd_wait = some 0;
  lt_join = 0;
  lt_exit_ptr = 0;
  ops = 0;
  sleep_usecs = 0;
}

-- the requests to the poller, of which only the fact and the order are kept; no fd is -1
pub data PollerOp : Type 0 where
  register_rd register_wr : ℕ → PollerOp
  clear_rd clear_wr : Option ℕ → PollerOp

abbrev pub u64 : ℕ
u64 = 2 ^ 64

-- `_lthread_diff_usecs`
abbrev pub diff_usecs : ℕ → ℕ → ℕ
diff_usecs t1 t2 = (t2 + u64 - t1) % u64

module _ ⦃T : RbTree⦄ where
  -- `struct lthread_sched`, with the memory that its functions read and write: the threads by
  -- address, which of them were freed, the queues of the condition variables by address, and the
  -- cells that exit pointers point to. `clock` is what `_lthread_usec_now` returns, and `poller`
  -- holds the requests made of the poller, the last one first.
  pub record Sched : Type 0 where
    pub lt : ℕ → Lthread
    pub freed : ℕ → Bool
    pub birth : ℕ
    pub clock : ℕ
    pub spawned_lthreads : ℕ
    pub default_timeout : ℕ
    pub current_lthread : ℕ
    pub ready_q : List ℕ
    pub defer_q : List ℕ
    pub busy_l : List ℕ
    pub sleep_tree : T.Tree
    pub wait_tree : T.Tree
    pub poller : List PollerOp
    pub blocked : ℕ → List ℕ
    pub cells : ℕ → ℕ

  -- A write to the thread at an address.
  abbrev pub modify : ℕ → (Lthread → Lthread) → Sched → Sched
  modify p f s = record s { lt = update s.lt p (f (s.lt p)) }

  abbrev pub has : ℕ → LthreadSt → Sched → Bool
  has p b s = (s.lt p).state b

  abbrev pub raise_bit : ℕ → LthreadSt → Sched → Sched
  raise_bit p b = modify p λ l. record l { state = set_bit b l.state }

  abbrev pub drop_bit : ℕ → LthreadSt → Sched → Sched
  drop_bit p b = modify p λ l. record l { state = clear_bit b l.state }

  -- TAILQ_INSERT_TAIL(&sched->ready, lt, ready_next)
  abbrev pub make_ready : ℕ → Sched → Sched
  make_ready p s = record s { ready_q = push_back s.ready_q p }

  -- scheduler time in microseconds
  abbrev pub sched_time : Sched → ℕ
  sched_time s = diff_usecs s.birth s.clock
