-- ===== src/Socket/Laws.antt =====
-- The loop of `LTHREAD_SEND` in src/lthread_socket.c as a whole.
use lthread.Base.{ℕ, ◌≡◌}
use lthread.Sched.State.{Sched}
use lthread.Socket.Wait.{Result, count, minus_one, minus_two, assert_failed, no_fuel}

-- The loop has ended: all of `length` was sent, or the call failed, or an assertion did.
abbrev pub SendResult : ℕ → Result → Type 0
SendResult length (count n) = n ≡ length
SendResult length minus_one = Unit
SendResult length assert_failed = Unit
SendResult length minus_two = ⊥
SendResult length no_fuel = ⊥
