-- ===== src/Socket/Open.antt =====
-- `lthread_accept`, `lthread_close`, `lthread_socket`, `lthread_pipe`, `lthread_connect` and
-- `lthread_writev` of src/lthread_socket.c.
use lthread.Base.{
  ℕ, zero, suc, ◌+◌, ◌-◌, Bool, true, false, Option, none, some, List, [], ◌∷◌, ltb, if◌then◌else◌,
  not,
}
use lthread.Rb.{RbTree}
use lthread.Sched.State.{
  fdeof, expired, ev_read, ev_write, Sched, has, raise_bit, drop_bit, make_ready,
}
use lthread.Sched.Event.{desched_event}
use lthread.Socket.Wait.{
  eagain, enfile, emfile, econnaborted, einprogress, ealready, Errno, Answer, returned_n, error,
  Result, count, minus_one, minus_two, assert_failed, no_fuel, renice_yield, sched_event,
}

module _ ⦃T : RbTree⦄ where
  abbrev pub notify_eof : Option ℕ × Sched → Sched
  notify_eof (none, s) = s
  notify_eof (some q, s) = raise_bit q fdeof (make_ready q s)

  -- `lthread_close` up to close(2)
  unfoldable pub close_begin : ℕ → Sched → Sched
  unfolding desched_event
  close_begin fd s =
      let s' = notify_eof (desched_event fd ev_write (notify_eof (desched_event fd ev_read s))) in
      let p = s'.current_lthread in if has p fdeof s' then drop_bit p fdeof s' else s'

-- `lthread_socket` and the end of `lthread_accept`: `nonblock` is what fcntl(2) answers for the new
-- descriptor. The result is what is returned, and the descriptors that are closed.
unfoldable pub make_nonblocking : ℕ → (ℕ → Bool) → Result × List ℕ
make_nonblocking fd nonblock = if nonblock fd then (count fd, []) else (minus_one, fd ∷ [])

unfoldable pub socket : Answer → (ℕ → Bool) → Result × List ℕ
unfolding make_nonblocking
socket (error e) nonblock = (minus_one, [])
socket (returned_n fd) nonblock = make_nonblocking fd nonblock

-- `lthread_pipe`; none where pipe(2) fails.
unfoldable pub pipe : Option (ℕ × ℕ) → (ℕ → Bool) → Result × List ℕ
pipe none nonblock = (minus_one, [])
pipe (some (r, w)) nonblock =
    if not (nonblock r)
    then (minus_one, r ∷ w ∷ [])
    else if not (nonblock w)
    then (minus_one, r ∷ w ∷ [])
    else (count 0, [])

abbrev pub waits_to_accept : Errno → Bool
waits_to_accept eagain = true
waits_to_accept enfile = true
waits_to_accept emfile = true
waits_to_accept _ = false

abbrev pub waits_to_connect : Errno → Bool
waits_to_connect eagain = true
waits_to_connect einprogress = true
waits_to_connect ealready = true
waits_to_connect _ = false

abbrev pub aborted_peer : Errno → Bool
aborted_peer econnaborted = true
aborted_peer _ = false

module _ ⦃T : RbTree⦄ {K : Type 0} (others : Sched → K → Sched × K) (p fd : ℕ) where
  module _ (call : K → Answer × K) where
    -- The loop of `lthread_accept`; a descriptor 0 is asked for again.
    unfoldable pub accept : ℕ → Sched → K → Result × Sched × K
    unfolding renice_yield sched_event
    accept zero s k = (no_fuel, s, k)
    accept (suc f) s k =
        let (s1, k1) = renice_yield others p s k in
        let (answer, k2) = call k1 in
        elim answer as (λ _. Result × Sched × K) [
          | returned_n zero ↦ accept f s1 k2
          | returned_n (suc n) ↦ (count (suc n), s1, k2)
          | error e ↦
              let waited =
                elim (sched_event others p fd ev_read 0 s1 k2) as (λ _. Result × Sched × K) [
                  | none ↦ (assert_failed, s1, k2)
                  | some (s3, k3) ↦ accept f s3 k3
                ] in
              let again = accept f s1 k2 in
              if waits_to_accept e
              then waited
              else if aborted_peer e
              then again
              else (minus_one, s1, k2)
        ]

    -- `lthread_connect`
    unfoldable pub connect : ℕ → ℕ → Sched → K → Result × Sched × K
    unfolding renice_yield sched_event
    connect zero timeout s k = (no_fuel, s, k)
    connect (suc f) timeout s k =
        let (s1, k1) = renice_yield others p s k in
        let (answer, k2) = call k1 in
        elim answer as (λ _. Result × Sched × K) [
          | returned_n n ↦ (count n, s1, k2)
          | error e ↦
              let waited =
                elim (sched_event others p fd ev_write timeout s1 k2) as (λ _. Result × Sched × K) [
                  | none ↦ (assert_failed, s1, k2)
                  | some (s3, k3) ↦
                      let rest = connect f timeout s3 k3 in
                      if has p expired s3 then (minus_two, s3, k3) else rest
                ] in
              if waits_to_connect e then waited else (minus_one, s1, k2)
        ]

-- the part of `lthread_accept` after its loop
unfoldable pub finish_accept : Result → (ℕ → Bool) → Result × List ℕ
unfolding make_nonblocking
finish_accept (count fd) nonblock = make_nonblocking fd nonblock
finish_accept r nonblock = (r, [])

-- struct iovec
pub record Iovec : Type 0 where
  pub iov_base : ℕ
  pub iov_len : ℕ

-- The inner loop of `lthread_writev`: what is left to write after `n` more bytes were written.
unfoldable pub advance_iov : ℕ → List Iovec → List Iovec
advance_iov n [] = []
advance_iov zero (v ∷ vs) = v ∷ vs
advance_iov (suc n) (v ∷ vs) =
    let rest = advance_iov (suc n - v.iov_len) vs in
    if ltb (suc n) v.iov_len
    then record { iov_base = v.iov_base + suc n; iov_len = v.iov_len - suc n } ∷ vs
    else rest

module _ ⦃T : RbTree⦄ {K : Type 0} (others : Sched → K → Sched × K) (p fd : ℕ) where
  module _ (call : List Iovec → K → Answer × K) where
    -- `lthread_writev`, on the part of the vector from `iov_index` on
    unfoldable pub writev : ℕ → ℕ → List Iovec → Sched → K → Result × Sched × K
    unfolding renice_yield sched_event advance_iov
    writev zero total vs s k = (no_fuel, s, k)
    writev (suc f) total vs s k =
        let (s1, k1) = renice_yield others p s k in
        let (answer, k2) = call vs k1 in
        let again : List Iovec → ℕ → Sched → K → Result × Sched × K = λ vs' total' s' k'.
          elim vs' as (λ _. Result × Sched × K) [
            | [] ↦ (count total', s', k')
            | v ∷ rest ↦ writev f total' (v ∷ rest) s' k'
          ] in
        elim answer as (λ _. Result × Sched × K) [
          | returned_n zero ↦ (count 0, s1, k2)
          | returned_n (suc n) ↦ again (advance_iov (suc n) vs) (total + suc n) s1 k2
          | error eagain ↦ elim (sched_event others p fd ev_write 0 s1 k2) [
            | none ↦ (assert_failed, s1, k2)
            | some (s3, k3) ↦ again vs total s3 k3
          ]
          | error _ ↦ (minus_one, s1, k2)
        ]
