-- ===== src/Mutex/Exclusion.antt =====
-- The lock of src/lthread.c among threads that unlock only what they hold.
use lthread.Base.{ℕ, ◌+◌, ◌-◌, ◌<◌, ◌≡◌, ◌≢◌, ◌⊎◌, arith, update}
use lthread.Rb.{RbTree}
use lthread.Sched.State.{Sched}
use lthread.Thread.{lthread_id}
use lthread.Cond.{cond_wait_begin, cond_wait_end}
use lthread.Mutex.{
  Mutex, acquired, blocks, mutex_lock, lock_round, mutex_lock_resumed, mutex_unlock,
}

-- A mutex, and how often each thread, by its id, has locked it and not yet unlocked it.
pub record Shared : Type 0 where
  pub mutex : Mutex
  pub held : ℕ → ℕ

pub record IsExclusive (x : Shared) : Type 0 where
  pub own : x.held x.mutex.owner ≡ x.mutex.locked
  pub others : (i : ℕ) → i ≢ x.mutex.owner → x.held i ≡ 0

module _ ⦃T : RbTree⦄ where
  -- What threads can do, in any order: lock at once, get the lock when they are resumed in the
  -- loop of `lthread_mutex_lock`, and unlock while they hold the lock.
  pub data Step : Shared → Shared → Type 0 where
    locks :
        {x : Shared} {m : Mutex} (s : Sched) {s' : Sched}
        → mutex_lock x.mutex s ≡ acquired m s'
        → Step x
            (record { mutex = m; held = update x.held (lthread_id s) (x.held (lthread_id s) + 1) })
    resumes :
        {x : Shared} {m : Mutex} (p : ℕ) (s : Sched) {s' : Sched}
        → mutex_lock_resumed x.mutex p s ≡ acquired m s'
        → Step x (record {
          mutex = m;
          held = update x.held (lthread_id s') (x.held (lthread_id s') + 1);
        })
    unlocks :
        {x : Shared} (s : Sched)
        → 0 < x.held (lthread_id s)
        → Step x (record {
          mutex = (mutex_unlock x.mutex s).0;
          held = update x.held (lthread_id s) (x.held (lthread_id s) - 1);
        })

  pub data Reach (x : Shared) : Shared → Type 0 where
    here : Reach x x
    next : {y z : Shared} → Reach x y → Step y z → Reach x z

  lock_round-acquired :
      (m : Mutex) (s : Sched) {m' : Mutex} {s' : Sched}
      → lock_round m s ≡ acquired m' s'
      → (m.locked ≡ 0) × (m'.locked ≡ 1) × (m'.owner ≡ lthread_id s') × (m'.c ≡ m.c)
  unfolding lock_round
  lock_round-acquired m s h = ground arith

  mutex_lock-acquired :
      (m : Mutex) (s : Sched) {m' : Mutex} {s' : Sched}
      → mutex_lock m s ≡ acquired m' s'
      → (m'.owner ≡ lthread_id s)
        × (((m.locked ≡ 0) × (m'.locked ≡ 1))
            ⊎ ((m.owner ≡ lthread_id s) × (m'.locked ≡ m.locked + 1)))
  unfolding mutex_lock lock_round
  mutex_lock-acquired m s h = ground arith

  mutex_lock_resumed-acquired :
      (m : Mutex) (p : ℕ) (s : Sched) {m' : Mutex} {s' : Sched}
      → mutex_lock_resumed m p s ≡ acquired m' s'
      → (m.locked ≡ 0) × (m'.locked ≡ 1) × (m'.owner ≡ lthread_id s') × (m'.c ≡ m.c)
  unfolding mutex_lock_resumed
  mutex_lock_resumed-acquired m p s h = lock_round-acquired m (cond_wait_end m.c p 3000 s).1 h

  mutex_unlock-parts :
      (m : Mutex) (s : Sched)
      → ((mutex_unlock m s).0.locked ≡ m.locked - 1) × ((mutex_unlock m s).0.owner ≡ m.owner)
  unfolding mutex_unlock
  mutex_unlock-parts m s = ground arith

  Step-IsExclusive : {x y : Shared} → Step x y → IsExclusive x → IsExclusive y
  Step-IsExclusive {x} (locks s h) v = record {
    own = ground (arith, mutex_lock-acquired x.mutex s h, v.own, v.others (lthread_id s));
    others = λ i ne.
        ground (arith, mutex_lock-acquired x.mutex s h, v.own, v.others i, v.others (lthread_id s));
  }
  Step-IsExclusive {x} (resumes p s {s'} h) v = record {
    own =
        ground (arith, mutex_lock_resumed-acquired x.mutex p s h, v.own, v.others (lthread_id s'));
    others = λ i ne. ground (
      arith,
      mutex_lock_resumed-acquired x.mutex p s h,
      v.own,
      v.others i,
      v.others (lthread_id s'),
    );
  }
  Step-IsExclusive {x} (unlocks s h) v = record {
    own = ground (arith, mutex_unlock-parts x.mutex s, v.own, v.others (lthread_id s));
    others = λ i ne.
        ground (arith, mutex_unlock-parts x.mutex s, v.own, v.others i, v.others (lthread_id s));
  }

  Reach-IsExclusive : {x y : Shared} → IsExclusive x → Reach x y → IsExclusive y
  Reach-IsExclusive v here = v
  Reach-IsExclusive v (next r st) = Step-IsExclusive st (Reach-IsExclusive v r)

  -- Mutual exclusion: from a lock that only its owner holds, as often as its depth says, or nobody,
  -- whatever sequence of locks, of wake-ups in the lock loop and of unlocks by holders follows, two
  -- threads that hold the lock have the same id, and the depth of the lock is how often its owner
  -- has locked it and not yet unlocked it.
  pub lock_exclusive :
      {x y : Shared} (i j : ℕ)
      → IsExclusive x
      → Reach x y
      → 0 < y.held i
      → 0 < y.held j
      → (i ≡ j) × (y.mutex.locked ≡ y.held i)
  lock_exclusive {y = y} i j v r hi hj =
      let w = Reach-IsExclusive v r in ground (arith, w.own, w.others i, w.others j)

  -- A thread that does not own a lock that is held blocks on its condition variable, with a timeout
  -- of 3000 milliseconds.
  pub mutex_lock_blocks :
      (m : Mutex) (s : Sched)
      → 0 < m.locked
      → m.owner ≢ lthread_id s
      → mutex_lock m s ≡ blocks (cond_wait_begin m.c 3000 s)
  unfolding mutex_lock lock_round
  mutex_lock_blocks m s h ne = ground arith

  -- After an unlock by a thread that does not own it, a lock of depth one can be taken by any
  -- thread at once.
  pub unlock_foreign :
      (m : Mutex) (s t : Sched)
      → m.locked ≡ 1
      → m.owner ≢ lthread_id s
      → mutex_lock (mutex_unlock m s).0 t
        ≡ acquired (record m { locked = 1; owner = lthread_id t }) t
  unfolding mutex_lock mutex_unlock lock_round
  unlock_foreign m s t h ne = ground arith
