-- ===== src/Tests/Net.antt =====
-- Channels of src/chan.c, the socket calls of src/lthread_socket.c and its poll on small inputs.
use lthread.Base.{
  ℕ, zero, suc, ◌≡◌, ◌+◌, refl, true, false, some, none, List, [], ◌∷◌, arith, ◌==◌, if◌then◌else◌,
}
use lthread.Rb.{find_entry}
use lthread.Rb.Model.{sorted_list}
use lthread.Sched.State.{Sched}
use lthread.Chan.State.{World, msg}
use lthread.Chan.Try.{Attempt, find_open, try_send}
use lthread.Chan.Typed.{Heap, chan_send_buf}
use lthread.Chan.Laws.{rendezvous}
use lthread.Chan.Wrapped.{Wrapped, chan_send_buf-Wrapped}
use lthread.Socket.Wait.{Answer, returned_n, error, eagain, Result, count}
use lthread.Socket.Transfer.{readline}
use lthread.Socket.Open.{Iovec, advance_iov}
use lthread.Socket.Rounds.{WellBehaved}
use lthread.Socket.Vectors.{iov_bytes, skip, advance_iov-bytes}
use lthread.Socket.Line.{IsLine, readline-IsLine}
use lthread.Sched.State.{ev_read, ev_write}
use lthread.Sched.Event.{fd_key}
use lthread.Socket.Open.{close_begin}
use lthread.Socket.Close.{Told, close_begin-Told}
use lthread.Poll.{Polls}
use lthread.Tests.Sched.{at_rest}

-- Selector 7 waits on the unbuffered channel 1 for a message, and selector 8 sends 42.
abbrev hall : World
hall = record {
  sched = at_rest;
  chan = λ c. record {
    queue = none;
    closed = false;
    send_count = 0;
    sendq = [];
    recv_count = 1;
    recvq = record { sel = 7; idx = 0 } ∷ [];
  };
  sel = λ s. record {
    cond = s;
    chans = 1 ∷ [];
    msgs = (if s == 8 then 42 else 0) ∷ [];
    wchan_count = if s == 8 then 1 else 0;
    rchan_count = if s == 7 then 1 else 0;
    target = none;
  };
}

rendezvous_example :
    (a : Attempt) × (try_send 8 1 0 hall ≡ some a)
    × (a.hit ≡ true)
    × (a.served ≡ some (record { sel = 7; idx = 0 }))
    × (msg 7 0 a.world ≡ 42)
    × ((a.world.sel 7).target ≡ some 0)
    × ((a.world.sel 8).target ≡ some 0)
unfolding find_open
rendezvous_example =
    rendezvous 8 1 0 (record { sel = 7; idx = 0 }) hall (omega arith) refl refl refl refl
      (omega arith)

abbrev heap : Heap
heap = record { block = λ a. []; is_freed = λ a. true }

chan_send_buf_example :
    Wrapped 96 2 (5 ∷ 6 ∷ 7 ∷ []) (chan_send_buf (some 96) 8 1 (5 ∷ 6 ∷ 7 ∷ []) 2 heap hall)
chan_send_buf_example = chan_send_buf-Wrapped 96 8 1 2 (5 ∷ 6 ∷ 7 ∷ []) heap hall (omega arith)

-- A kernel that is not ready as often as its state says, and then takes all.
abbrev pub slow : ℕ → ℕ → ℕ → Answer × ℕ
slow n off zero = (returned_n n, 0)
slow n off (suc k) = (error eagain, k)

pub slow-WellBehaved : WellBehaved slow (λ k. k)
slow-WellBehaved = record {
  at_most = λ n off k m h. ground (arith, h);
  some_byte = λ n off k h. ground (arith, h);
  calmer = λ n off k. ground arith;
  not_ready = λ n off k h. ground (arith, h);
}

abbrev pub alone : Sched → ℕ → Sched × ℕ
alone s k = (s, k)

abbrev parts : List Iovec
parts = record { iov_base = 100; iov_len = 3 } ∷ record { iov_base = 200; iov_len = 2 } ∷ []

advance_iov_example : iov_bytes (advance_iov 4 parts) ≡ skip 4 (iov_bytes parts)
advance_iov_example = advance_iov-bytes 4 parts

abbrev total : List Iovec → ℕ
total [] = 0
total (v ∷ vs) = v.iov_len + total vs

-- A kernel that takes all.
abbrev writes_all : List Iovec → ℕ → Answer × ℕ
writes_all vs k = (returned_n (total vs), k)

-- A peer that sends the bytes of a list, one at a time.
abbrev peer : List ℕ → Result × ℕ × List ℕ
peer [] = (count 0, 0, [])
peer (b ∷ bs) = (count 1, b, bs)

readline_example : IsLine peer true 8 (72 ∷ 10 ∷ 73 ∷ []) (readline peer true 8 (72 ∷ 10 ∷ 73 ∷ []))
readline_example = readline-IsLine peer true 8 (72 ∷ 10 ∷ 73 ∷ [])

abbrev polls : Polls
polls = record { sched = at_rest; pollfds = λ p. []; ready_fds = λ p. 0 }

-- Thread 4 waits to read from descriptor 3, and thread 5 waits to write to it.
abbrev both_wait : Sched
both_wait = record at_rest { wait_tree = (fd_key 3 ev_read, 4) ∷ (fd_key 3 ev_write, 5) ∷ [] }

close_begin_example : Told both_wait (close_begin 3 both_wait) 4 5
unfolding find_entry
close_begin_example =
    close_begin-Told 3 4 5 both_wait (omega arith, tt) refl refl (omega arith) (omega arith)
