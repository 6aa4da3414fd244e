-- ===== src/Poll/Laws.antt =====
-- `lthread_poll` of src/lthread_socket.c on more than one descriptor.
use lthread.Base.{ℕ, ◌-◌, ◌≡◌, Bool-cases, Option-cases, inl, inr, none, some, List, ◌∷◌, arith}
use lthread.Rb.{RbTree}
use lthread.Sched.State.{u64, ev_read, ev_write, Sched, LthreadEvent}
use lthread.Sched.Event.{sched_event_begin}
use lthread.Poll.{Pollfd, Polls, poll_begin, poll_aborted, enrol, enrol_all, no_yield}

module _ ⦃T : RbTree⦄ where
  refused_again :
      (p fd fd' : ℕ) (e e' : LthreadEvent) (s : Sched) {s' : Sched}
      → no_yield (sched_event_begin p fd e (u64 - 1) s) ≡ some s'
      → no_yield (sched_event_begin p fd' e' (u64 - 1) s') ≡ none
  unfolding sched_event_begin
  refused_again p fd fd' ev_read e' s h = ground arith
  refused_again p fd fd' ev_write e' s h = ground arith

  refused :
      (p : ℕ) (b : Pollfd) (s' : Sched)
      → no_yield (sched_event_begin p b.fd ev_read (u64 - 1) s') ≡ none
      → no_yield (sched_event_begin p b.fd ev_write (u64 - 1) s') ≡ none
      → enrol p b s' ≡ none
  refused p b s' r w = ground (arith, r, w)

  enrol_twice :
      (p : ℕ) (a b : Pollfd) (s : Sched) {s' : Sched} → enrol p a s ≡ some s' → enrol p b s' ≡ none
  enrol_twice p a b s {s'} h = elim (Bool-cases a.pollin) [
    | inl i ↦
        refused p b s' (refused_again p a.fd b.fd ev_read ev_read s (ground (arith, h, i)))
          (refused_again p a.fd b.fd ev_read ev_write s (ground (arith, h, i)))
    | inr o ↦
        refused p b s' (refused_again p a.fd b.fd ev_write ev_read s (ground (arith, h, o)))
          (refused_again p a.fd b.fd ev_write ev_write s (ground (arith, h, o)))
  ]

  enrol_all_two :
      (p : ℕ) (a b : Pollfd) (fds : List Pollfd) (s : Sched) → enrol_all p (a ∷ b ∷ fds) s ≡ none
  unfolding enrol_all
  enrol_all_two p a b fds s = elim (Option-cases (enrol p a s)) [
    | inl f ↦ ground (arith, f)
    | inr (s', f) ↦ ground (arith, f, enrol_twice p a b s f)
  ]

  -- A call of lthread_poll with two descriptors or more, and a timeout that is not 0, fails an
  -- assertion, whatever they are.
  pub poll_begin_two :
      (p timeout : ℕ) (a b : Pollfd) (fds : List Pollfd) (w : Polls)
      → poll_begin p (a ∷ b ∷ fds) timeout w ≡ poll_aborted
  unfolding poll_begin
  poll_begin_two p timeout a b fds w = ground (arith, enrol_all_two p a b fds w.sched)
