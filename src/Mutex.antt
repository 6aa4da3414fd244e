-- ===== src/Mutex.antt =====
-- The recursive lock of src/lthread.c: `lthread_mutex_lock`, `lthread_mutex_unlock` and
-- `lthread_mutex_check`.
pub mod Exclusion
use lthread.Base.{
  ℕ, ◌+◌, ◌-◌, Bool, true, false, Option, none, some, ◌==◌, ◌&&◌, ltb, not, if◌then◌else◌,
}
use lthread.Rb.{RbTree}
use lthread.Sched.State.{Sched}
use lthread.Cond.{cond_wait_begin, cond_wait_end, cond_broadcast}
use lthread.Thread.{lthread_id}

-- `struct lthread_mutex`: the address of its condition variable, the depth of the lock, and the id
-- of its owner (the C field `lthread`)
pub record Mutex : Type 0 where
  pub c : ℕ
  pub locked : ℕ
  pub owner : ℕ

module _ ⦃T : RbTree⦄ where
  -- `lthread_mutex_lock` returns with the lock, or blocks in `lthread_cond_wait`.
  pub data LockStep : Type 0 where
    acquired : Mutex → Sched → LockStep
    blocks : Option Sched → LockStep

  abbrev is_locked : Mutex → Bool
  is_locked m = ltb 0 m.locked

  -- a round of the loop, and what follows it
  unfoldable pub lock_round : Mutex → Sched → LockStep
  lock_round m s =
      if is_locked m
      then blocks (cond_wait_begin m.c 3000 s)
      else acquired (record m { locked = 1; owner = lthread_id s }) s

  unfoldable pub mutex_lock : Mutex → Sched → LockStep
  unfolding lock_round
  mutex_lock m s =
      if is_locked m && m.owner == lthread_id s
      then acquired (record m { locked = m.locked + 1 }) s
      else lock_round m s

  -- the thread `p`, resumed in `lthread_cond_wait`
  unfoldable pub mutex_lock_resumed : Mutex → ℕ → Sched → LockStep
  unfolding lock_round
  mutex_lock_resumed m p s = let (woken, s') = cond_wait_end m.c p 3000 s in lock_round m s'

  -- An unlock by another thread than the owner is reported on stderr, and done.
  unfoldable pub mutex_unlock : Mutex → Sched → Mutex × Sched
  mutex_unlock m s =
      if is_locked m then (record m { locked = m.locked - 1 }, cond_broadcast m.c s) else (m, s)

  unfoldable pub mutex_check : Mutex → Bool
  mutex_check m = not (is_locked m)
