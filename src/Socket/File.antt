-- ===== src/Socket/File.antt =====
-- `lthread_sendfile` of src/lthread_socket.c, which is compiled on FreeBSD.
pub mod Laws
use lthread.Base.{ℕ, zero, suc, ◌+◌, ◌-◌, ◌==◌, none, some, if◌then◌else◌}
use lthread.Rb.{RbTree}
use lthread.Sched.State.{ev_write, Sched}
use lthread.Socket.Wait.{
  eagain, Answer, returned_n, error, Result, count, minus_one, assert_failed, no_fuel, sched_event,
}

-- `call hdtr offset nbytes` is sendfile(2): its answer and `sbytes`, the number of bytes that it sent,
-- those of the headers and trailers in hdtr included.
module _ ⦃T : RbTree⦄ {K : Type 0} (others : Sched → K → Sched × K) (p sock : ℕ) where
  unfoldable pub sendfile :
      (ℕ → ℕ → ℕ → K → (Answer × ℕ) × K) → ℕ → ℕ → ℕ → ℕ → Sched → K → Result × Sched × K
  unfolding sched_event
  sendfile call nbytes hdtr zero offset s k = (no_fuel, s, k)
  sendfile call nbytes hdtr (suc f) offset s k =
      let ((answer, sbytes), k1) = call hdtr offset nbytes k in
      let again = sendfile call nbytes hdtr f (offset + sbytes) s k1 in
      elim answer as (λ _. Result × Sched × K) [
        | returned_n n ↦ if n == 0 then (count 0, s, k1) else again
        | error eagain ↦ elim (sched_event others p sock ev_write 0 s k1) [
          | none ↦ (assert_failed, s, k1)
          | some (s2, k2) ↦ sendfile call nbytes hdtr f (offset + sbytes) s2 k2
        ]
        | error _ ↦ (minus_one, s, k1)
      ]
