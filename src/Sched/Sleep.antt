-- ===== src/Sched/Sleep.antt =====
-- Sleeping threads: `_lthread_sched_sleep`, `_lthread_desched_sleep`, `_lthread_sched_busy_sleep`
-- and `_lthread_min_timeout` of src/lthread_sched.c.
pub mod Inv
pub mod Slot
pub mod Frame
pub mod Wake
use lthread.Base.{
  ℕ, zero, suc, ◌+◌, ◌-◌, ◌*◌, ◌%◌, Bool, true, false, Option, none, some, List, ◌∷◌, ◌==◌, ltb,
  length, remove, if◌then◌else◌, update,
}
use lthread.Rb.{RbTree}
use lthread.Sched.State.{
  LthreadSt, ready, busy, sleeping, expired, set_bit, clear_bit, Lthread, u64, Sched, modify, has,
  raise_bit, drop_bit, sched_time,
}

module _ ⦃T : RbTree⦄ where
  -- RB_REMOVE finds the node by the key under which it was inserted, `sleep_usecs`.
  unfoldable pub desched_sleep : ℕ → Sched → Sched
  desched_sleep p s =
      if has p sleeping s
      then record s {
        sleep_tree = T.remove (s.lt p).sleep_usecs s.sleep_tree;
        lt = update s.lt p (record (s.lt p) {
          state = clear_bit expired (set_bit ready (clear_bit sleeping (s.lt p).state));
        });
      }
      else s

  -- The loop of `_lthread_sched_sleep`: it raises the key until RB_INSERT finds it free, and ends
  -- with that key. The fuel bounds the collisions.
  unfoldable pub insert_sleeper : ℕ → ℕ → ℕ → T.Tree → Option (ℕ × T.Tree)
  insert_sleeper zero k p t = none
  insert_sleeper (suc f) k p t =
      let rest = insert_sleeper f ((k + 1) % u64) p t in
      elim (T.insert k p t) [ none ↦ rest | some t' ↦ some (k, t') ]

  -- One more than the number of sleeping threads.
  abbrev pub sleep_fuel : T.Tree → ℕ
  sleep_fuel t = suc (length (T.entries t))

  -- `_lthread_yield` up to the switch
  abbrev pub yield_begin : ℕ → Sched → Sched
  yield_begin p = modify p λ l. record l { ops = 0 }

  abbrev pub deadline : ℕ → Sched → ℕ
  deadline msecs s = (sched_time s + msecs * 1000 % u64) % u64

  -- `none` when the loop's fuel runs out.
  unfoldable pub sched_sleep_begin : ℕ → ℕ → Sched → Option Sched
  sched_sleep_begin p msecs s =
      if msecs == 0
      then some (yield_begin p (modify p (λ l. record l { sleep_usecs = deadline msecs s }) s))
      else elim (insert_sleeper (sleep_fuel s.sleep_tree) (deadline msecs s) p s.sleep_tree) [
        | none ↦ none
        | some (k, t) ↦ some (
            yield_begin p (record s {
              sleep_tree = t;
              lt =
                  update s.lt p
                    (record (s.lt p) { sleep_usecs = k; state = set_bit sleeping (s.lt p).state });
            }))
      ]

  unfoldable pub sched_sleep_end : ℕ → ℕ → Sched → Sched
  sched_sleep_end p msecs s =
      let s' = if ltb 0 msecs then drop_bit p sleeping s else s in
      modify p (λ l. record l { sleep_usecs = 0 }) s'

  unfoldable pub sched_busy_sleep_begin : ℕ → ℕ → Sched → Option Sched
  unfolding sched_sleep_begin
  sched_busy_sleep_begin p msecs s =
      sched_sleep_begin p msecs (raise_bit p busy (record s { busy_l = p ∷ s.busy_l }))

  unfoldable pub sched_busy_sleep_end : ℕ → ℕ → Sched → Sched
  unfolding sched_sleep_end
  sched_busy_sleep_end p msecs s =
      let s' = drop_bit p busy (sched_sleep_end p msecs s) in
      record s' { busy_l = remove p s'.busy_l }

  -- how long the poller may sleep, in microseconds
  unfoldable pub min_timeout : Sched → ℕ
  min_timeout s = elim (T.min? s.sleep_tree) [
    | none ↦ s.default_timeout
    | some (k, p) ↦ if ltb (sched_time s) k then k - sched_time s else 0
  ]
