-- ===== src/Kqueue.antt =====
-- The kqueue poller: src/lthread_kqueue.c, and the reset of the list of changes in `_lthread_poll` of
-- src/lthread_sched.c. kevent(2) is an interface.
pub mod Laws
pub mod Model
use lthread.Base.{
  ℕ, ◌+◌, ◌<◌, ◌≤◌, Bool, true, false, ◌&&◌, Option, none, some, ◌≡◌, ◌==◌, if◌then◌else◌, List, [],
  ◌∷◌, ◌++◌, length,
}

pub data Filter : Type 0 where
  evfilt_read evfilt_write : Filter

abbrev pub same_filter : Filter → Filter → Bool
same_filter evfilt_read evfilt_read = true
same_filter evfilt_write evfilt_write = true
same_filter _ _ = false

-- the flags that the poller passes: EV_ADD | EV_ENABLE | EV_ONESHOT, and EV_DELETE
pub data Flags : Type 0 where
  ev_add ev_delete : Flags

-- struct kevent, as a change
pub record Change : Type 0 where
  pub ident : ℕ
  pub filter : Filter
  pub flags : Flags
  pub udata : ℕ

-- A kqueue. `watched` has the `udata` of each descriptor and filter that it watches; `can_watch` holds
-- of an open descriptor that the filter supports. `change` is kevent with one change, and `none` where
-- it answers -1. The laws are those of its manual: EV_ADD registers, or changes what is registered;
-- EV_DELETE fails on what is not registered.
pub record Kevent : Type 1 where
  pub Set : Type 0
  pub watched : ℕ → Filter → Set → Option ℕ
  pub can_watch : ℕ → Filter → Set → Bool
  pub change : Change → Set → Option Set
  pub change-add :
      (fd : ℕ) (f : Filter) (p : ℕ) (s : Set)
      → can_watch fd f s ≡ true
      → (s' : Set) × (change (record { ident = fd; filter = f; flags = ev_add; udata = p }) s
          ≡ some s')
        × ((d : ℕ) (g : Filter) → can_watch d g s' ≡ can_watch d g s)
        × ((d : ℕ) (g : Filter)
            → watched d g s' ≡ (if d == fd && same_filter g f then some p else watched d g s))
  pub change-delete_absent :
      (fd : ℕ) (f : Filter) (p : ℕ) (s : Set)
      → watched fd f s ≡ none
      → change (record { ident = fd; filter = f; flags = ev_delete; udata = p }) s ≡ none

abbrev pub lt_max_events : ℕ
lt_max_events = 1024

-- Below, `none` is a failed assertion.
module _ ⦃K : Kevent⦄ where
  -- the fields of the scheduler: the kqueue, and the first `nevents` entries of `changelist`
  pub record Poller : Type 0 where
    pub poller_fd : K.Set
    pub changelist : List Change

  -- kevent with a list of changes and no room for events stops at the first error.
  unfoldable pub submit : List Change → K.Set → Option K.Set
  submit [] s = some s
  submit (c ∷ cs) s = elim (K.change c s) [ none ↦ none | some s' ↦ submit cs s' ]

  -- With room for events, an error is reported as an event, and the other changes are made.
  unfoldable pub submit_all : List Change → K.Set → K.Set
  submit_all [] s = s
  submit_all (c ∷ cs) s = elim (K.change c s) [
    | none ↦ submit_all cs s
    | some s' ↦ submit_all cs s'
  ]

  abbrev pub with_set : Poller → Option K.Set → Option Poller
  with_set k none = none
  with_set k (some s) = some (record k { poller_fd = s })

  unfoldable pub flush_events : Poller → Option Poller
  flush_events k = with_set (record k { changelist = [] }) (submit k.changelist k.poller_fd)

  abbrev pub add_change : Change → Poller → Poller
  add_change c k = record k { changelist = k.changelist ++ (c ∷ []) }

  unfoldable pub register : Change → Poller → Option Poller
  register c k =
      if length k.changelist == lt_max_events
      then elim (flush_events k) [ none ↦ none | some k' ↦ some (add_change c k') ]
      else some (add_change c k)

  -- `p` is the current thread.
  unfoldable pub kq_register_rd : ℕ → ℕ → Poller → Option Poller
  unfolding register
  kq_register_rd p fd =
      register (record { ident = fd; filter = evfilt_read; flags = ev_add; udata = p })

  unfoldable pub kq_register_wr : ℕ → ℕ → Poller → Option Poller
  unfolding register
  kq_register_wr p fd =
      register (record { ident = fd; filter = evfilt_write; flags = ev_add; udata = p })

  abbrev clear : Filter → ℕ → Poller → Option Poller
  clear f fd k =
      with_set k
        (K.change (record { ident = fd; filter = f; flags = ev_delete; udata = 0 }) k.poller_fd)

  unfoldable pub kq_clear_rd : ℕ → Poller → Option Poller
  kq_clear_rd fd k = clear evfilt_read fd k

  unfoldable pub kq_clear_wr : ℕ → Poller → Option Poller
  kq_clear_wr fd k = clear evfilt_write fd k

  -- _lthread_poller_poll and the reset of `nevents` after it, without the events that it reports
  unfoldable pub kq_poll : Poller → Poller
  kq_poll k = record { poller_fd = submit_all k.changelist k.poller_fd; changelist = [] }
