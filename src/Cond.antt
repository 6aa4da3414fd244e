-- ===== src/Cond.antt =====
-- Condition variables: `lthread_cond_wait`, `lthread_cond_signal` and `lthread_cond_broadcast` of
-- src/lthread.c. A condition variable is the address of its queue of blocked threads.
pub mod Laws
use lthread.Base.{
  ℕ, Bool, true, false, Option, none, some, List, [], ◌∷◌, if◌then◌else◌, remove, push_back, update,
}
use lthread.Rb.{RbTree}
use lthread.Sched.State.{expired, Sched, has, make_ready}
use lthread.Sched.Sleep.{desched_sleep, sched_busy_sleep_begin, sched_busy_sleep_end}

module _ ⦃T : RbTree⦄ where
  -- `lthread_cond_init`
  unfoldable pub cond_init : ℕ → Sched → Sched
  cond_init c s = record s { blocked = update s.blocked c [] }

  unfoldable pub cond_wait_begin : ℕ → ℕ → Sched → Option Sched
  cond_wait_begin c timeout s =
      let p = s.current_lthread in
      sched_busy_sleep_begin p timeout
        (record s { blocked = update s.blocked c (push_back (s.blocked c) p) })

  -- True is the return value 0, and false is -2: the wait timed out.
  unfoldable pub cond_wait_end : ℕ → ℕ → ℕ → Sched → Bool × Sched
  cond_wait_end c p timeout s =
      let s' = sched_busy_sleep_end p timeout s in
      if has p expired s'
      then (false, record s' { blocked = update s'.blocked c (remove p (s'.blocked c)) })
      else (true, s')

  -- A blocked thread leaves the queue, wakes and is ready.
  abbrev pub release : ℕ → ℕ → Sched → Sched
  release c p s =
      make_ready p
        (desched_sleep p (record s { blocked = update s.blocked c (remove p (s.blocked c)) }))

  unfoldable pub cond_signal : ℕ → Sched → Sched
  cond_signal c s = elim (s.blocked c) [ [] ↦ s | p ∷ ps ↦ release c p s ]

  unfoldable pub release_all : ℕ → List ℕ → Sched → Sched
  release_all c [] s = s
  release_all c (p ∷ ps) s = release_all c ps (release c p s)

  unfoldable pub cond_broadcast : ℕ → Sched → Sched
  unfolding release_all
  cond_broadcast c s = release_all c (s.blocked c) s
