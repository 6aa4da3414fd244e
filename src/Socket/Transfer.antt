-- ===== src/Socket/Transfer.antt =====
-- The retry loops of src/lthread_socket.c: `LTHREAD_RECV`, `LTHREAD_RECV_EXACT`, `LTHREAD_SEND`,
-- `LTHREAD_SEND_ONCE` and `lthread_readline`.
use lthread.Base.{
  ℕ, zero, suc, ◌+◌, ◌-◌, Bool, true, false, none, some, List, [], ◌==◌, if◌then◌else◌, push_back,
}
use lthread.Rb.{RbTree}
use lthread.Sched.State.{fdeof, expired, ev_read, ev_write, Sched, has}
use lthread.Socket.Wait.{
  eagain, Answer, returned_n, error, Result, count, minus_one, minus_two, assert_failed, no_fuel,
  renice_yield, sched_event,
}

module _ ⦃T : RbTree⦄ {K : Type 0} (others : Sched → K → Sched × K) (p fd : ℕ) where
  -- `call` is the system call: the number of bytes asked for, and the bytes transferred so far.
  module _ (call : ℕ → ℕ → K → Answer × K) (length : ℕ) where
    -- LTHREAD_SEND, with `sent` bytes sent; it waits without a timeout.
    unfoldable pub send : ℕ → ℕ → Sched → K → Result × Sched × K
    unfolding renice_yield sched_event
    send zero sent s k = (no_fuel, s, k)
    send (suc f) sent s k =
        let (s1, k1) = renice_yield others p s k in
        let (answer, k2) = call (length - sent) sent k1 in
        let next = elim answer as (λ _. Result × Sched × K) [
          | returned_n n ↦
              let rest = send f (sent + n) s1 k2 in if n == 0 then (count sent, s1, k2) else rest
          | error eagain ↦ elim (sched_event others p fd ev_write 0 s1 k2) [
            | none ↦ (assert_failed, s1, k2)
            | some (s3, k3) ↦ send f sent s3 k3
          ]
          | error _ ↦ (minus_one, s1, k2)
        ] in
        if sent == length
        then (count sent, s, k)
        else if has p fdeof s
        then (minus_one, s, k)
        else next

    -- LTHREAD_SEND_ONCE
    unfoldable pub send_once : ℕ → Sched → K → Result × Sched × K
    unfolding sched_event
    send_once zero s k = (no_fuel, s, k)
    send_once (suc f) s k =
        let (answer, k1) = call length 0 k in
        let next = elim answer as (λ _. Result × Sched × K) [
          | returned_n n ↦ (count n, s, k1)
          | error eagain ↦ elim (sched_event others p fd ev_write 0 s k1) [
            | none ↦ (assert_failed, s, k1)
            | some (s2, k2) ↦ send_once f s2 k2
          ]
          | error _ ↦ (minus_one, s, k1)
        ] in
        if has p fdeof s then (minus_one, s, k) else next

    module _ (timeout : ℕ) where
      -- LTHREAD_RECV
      unfoldable pub recv : ℕ → Sched → K → Result × Sched × K
      unfolding renice_yield sched_event
      recv zero s k = (no_fuel, s, k)
      recv (suc f) s k =
          let (s1, k1) = renice_yield others p s k in
          let (answer, k2) = call length 0 k1 in
          let next = elim answer as (λ _. Result × Sched × K) [
            | returned_n n ↦ (count n, s1, k2)
            | error eagain ↦ elim (sched_event others p fd ev_read timeout s1 k2) [
              | none ↦ (assert_failed, s1, k2)
              | some (s3, k3) ↦
                  let rest = recv f s3 k3 in if has p expired s3 then (minus_two, s3, k3) else rest
            ]
            | error _ ↦ (minus_one, s1, k2)
          ] in
          if has p fdeof s then (minus_one, s, k) else next

      -- LTHREAD_RECV_EXACT, with `recvd` bytes received
      unfoldable pub recv_exact : ℕ → ℕ → Sched → K → Result × Sched × K
      unfolding renice_yield sched_event
      recv_exact zero recvd s k = (no_fuel, s, k)
      recv_exact (suc f) recvd s k =
          let (s1, k1) = renice_yield others p s k in
          let (answer, k2) = call (length - recvd) recvd k1 in
          let next = elim answer as (λ _. Result × Sched × K) [
            | returned_n n ↦
                let rest = recv_exact f (recvd + n) s1 k2 in
                if n == 0 then (count recvd, s1, k2) else rest
            | error eagain ↦ elim (sched_event others p fd ev_read timeout s1 k2) [
              | none ↦ (assert_failed, s1, k2)
              | some (s3, k3) ↦
                  let rest = recv_exact f recvd s3 k3 in
                  if has p expired s3 then (minus_two, s3, k3) else rest
            ]
            | error _ ↦ (minus_one, s1, k2)
          ] in
          if recvd == length
          then (count recvd, s, k)
          else if has p fdeof s
          then (minus_one, s, k)
          else next

-- What `lthread_readline` returns: the data and their number of bytes, or a result of
-- `lthread_recv` other than 1.
pub data Line : Type 0 where
  line : List ℕ → Line
  refused : Result → Line
  no_memory : Line

-- `lthread_readline`, over a receive of one byte: its result, and the byte if the result is 1.
module _ {W : Type 0} (recv_byte : W → Result × ℕ × W) where
  -- the loop, with `room` bytes left and the bytes read so far
  unfoldable pub read_bytes : ℕ → List ℕ → W → Line × W
  read_bytes zero bytes w = (line bytes, w)
  read_bytes (suc room) bytes w =
      let (r, b, w') = recv_byte w in
      let rest = read_bytes room (push_back bytes b) w' in
      let next = if b == 10 then (line (push_back bytes b), w') else rest in
      elim r as (λ _. Line × W) [
        | count zero ↦ (refused (count 0), w')
        | count (suc n) ↦ next
        | no_fuel ↦ (refused no_fuel, w')
        | assert_failed ↦ (refused assert_failed, w')
        | minus_one ↦ (refused minus_one, w')
        | minus_two ↦ (refused minus_two, w')
      ]

  unfoldable pub readline : Bool → ℕ → W → Line × W
  unfolding read_bytes
  readline false max w = (no_memory, w)
  readline true max w = read_bytes max [] w
