-- ===== src/Socket/Keeps.antt =====
-- What the yields and waits of src/lthread_socket.c keep, when the other threads do.
use lthread.Base.{ℕ, ◌≡◌, ap, subst, Bool-cases, Option, none, some, inl, inr, arith}
use lthread.Rb.{RbTree}
use lthread.Sched.State.{ev_write, Sched}
use lthread.Socket.Wait.{renice_yield, after_event, sched_event}
use lthread.Sched.Event.{EventStep, aborted, returned, yielded, sched_event_begin}
use lthread.Thread.{renice}

module _ ⦃T : RbTree⦄ {K : Type 0} (others : Sched → K → Sched × K) (p fd : ℕ) where
  -- What the other threads keep is kept over a yield, and over a wait.
  pub renice_yield-keeps :
      (Q : K → Type 0) (s : Sched) (k : K)
      → ((t : Sched) (j : K) → Q j → Q (others t j).1)
      → Q k
      → Q (renice_yield others p s k).1
  unfolding renice_yield
  renice_yield-keeps Q s k keep x = elim (Bool-cases (renice p s).0) [
    | inl y ↦ rw y (keep (renice p s).1 k x)
    | inr n ↦ rw n x
  ]

  abbrev state_or : K → Option (Sched × K) → K
  state_or k none = k
  state_or k (some r) = r.1

  after_event-keeps :
      (Q : K → Type 0) (o : EventStep) (k : K) {s' : Sched} {k' : K}
      → ((t : Sched) (j : K) → Q j → Q (others t j).1)
      → after_event others p ev_write 0 k o ≡ some (s', k')
      → Q k
      → Q k'
  after_event-keeps Q aborted k keep h x = absurd (grind (arith, h))
  after_event-keeps Q (returned s) k keep h x = subst Q (ap (state_or k) h) x
  after_event-keeps Q (yielded s) k keep h x = subst Q (ap (state_or k) h) (keep s k x)

  pub sched_event-keeps :
      (Q : K → Type 0) (s : Sched) (k : K) {s' : Sched} {k' : K}
      → ((t : Sched) (j : K) → Q j → Q (others t j).1)
      → sched_event others p fd ev_write 0 s k ≡ some (s', k')
      → Q k
      → Q k'
  unfolding sched_event
  sched_event-keeps Q s k keep h x =
      after_event-keeps Q (sched_event_begin p fd ev_write 0 s) k keep h x
