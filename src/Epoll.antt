-- ===== src/Epoll.antt =====
-- The epoll poller: src/lthread_epoll.c. epoll_ctl(2) is an interface.
pub mod Laws
pub mod Model
use lthread.Base.{ℕ, Bool, true, false, Option, none, some, ◌≡◌, ◌==◌, if◌then◌else◌}

-- `events` of a struct epoll_event
pub record Events : Type 0 where
  pub epollin : Bool
  pub epollout : Bool
  pub epolloneshot : Bool
  pub epollrdhup : Bool
  pub epollhup : Bool

-- struct epoll_event; `data_fd` is `ev.data.fd`.
pub record EpollEvent : Type 0 where
  pub events : Events
  pub data_fd : ℕ

abbrev pub read_events : Events
read_events = record {
  epollin = true;
  epollout = false;
  epolloneshot = true;
  epollrdhup = true;
  epollhup = false;
}

abbrev pub write_events : Events
write_events = record {
  epollin = false;
  epollout = true;
  epolloneshot = true;
  epollrdhup = true;
  epollhup = false;
}

-- An epoll instance. `interest` is what it watches a descriptor for; `can_poll` holds of an open
-- descriptor that epoll supports. epoll_ctl answers -1 for `none`. The laws are those of its manual:
-- EPOLL_CTL_MOD and EPOLL_CTL_DEL fail on a descriptor that is not registered, and EPOLL_CTL_ADD
-- registers one that is not.
pub record Epoll : Type 1 where
  pub Set : Type 0
  pub interest : ℕ → Set → Option EpollEvent
  pub can_poll : ℕ → Set → Bool
  pub ctl_mod : ℕ → EpollEvent → Set → Option Set
  pub ctl_add : ℕ → EpollEvent → Set → Option Set
  pub ctl_del : ℕ → EpollEvent → Set → Option Set
  pub ctl_mod-absent :
      (fd : ℕ) (ev : EpollEvent) (s : Set) → interest fd s ≡ none → ctl_mod fd ev s ≡ none
  pub ctl_mod-present :
      (fd : ℕ) (ev old : EpollEvent) (s : Set)
      → can_poll fd s ≡ true
      → interest fd s ≡ some old
      → (s' : Set) × (ctl_mod fd ev s ≡ some s')
        × ((d : ℕ) → can_poll d s' ≡ can_poll d s)
        × ((d : ℕ) → interest d s' ≡ (if d == fd then some ev else interest d s))
  pub ctl_add-absent :
      (fd : ℕ) (ev : EpollEvent) (s : Set)
      → can_poll fd s ≡ true
      → interest fd s ≡ none
      → (s' : Set) × (ctl_add fd ev s ≡ some s')
        × ((d : ℕ) → can_poll d s' ≡ can_poll d s)
        × ((d : ℕ) → interest d s' ≡ (if d == fd then some ev else interest d s))
  pub ctl_del-absent :
      (fd : ℕ) (ev : EpollEvent) (s : Set) → interest fd s ≡ none → ctl_del fd ev s ≡ none
  pub ctl_del-present :
      (fd : ℕ) (ev old : EpollEvent) (s : Set)
      → interest fd s ≡ some old
      → (s' : Set) × (ctl_del fd ev s ≡ some s')
        × ((d : ℕ) → can_poll d s' ≡ can_poll d s)
        × ((d : ℕ) → interest d s' ≡ (if d == fd then none else interest d s))

-- Below, `none` is a failed assertion.
module _ ⦃E : Epoll⦄ where
  -- EPOLL_CTL_MOD, and EPOLL_CTL_ADD when that fails
  unfoldable pub mod_or_add : ℕ → EpollEvent → E.Set → Option E.Set
  mod_or_add fd ev s = elim (E.ctl_mod fd ev s) [ none ↦ E.ctl_add fd ev s | some s' ↦ some s' ]

  abbrev pub ev_register_rd : ℕ → E.Set → Option E.Set
  ev_register_rd fd = mod_or_add fd (record { events = read_events; data_fd = fd })

  abbrev pub ev_register_wr : ℕ → E.Set → Option E.Set
  ev_register_wr fd = mod_or_add fd (record { events = write_events; data_fd = fd })

  abbrev pub ev_clear_rd : ℕ → E.Set → Option E.Set
  ev_clear_rd fd = E.ctl_del fd (record { events = read_events; data_fd = fd })

  abbrev pub ev_clear_wr : ℕ → E.Set → Option E.Set
  ev_clear_wr fd = E.ctl_del fd (record { events = write_events; data_fd = fd })

abbrev pub ev_get_fd : EpollEvent → ℕ
ev_get_fd ev = ev.data_fd

abbrev pub ev_is_eof : EpollEvent → Bool
ev_is_eof ev = ev.events.epollhup

abbrev pub ev_is_write : EpollEvent → Bool
ev_is_write ev = ev.events.epollout

abbrev pub ev_is_read : EpollEvent → Bool
ev_is_read ev = ev.events.epollin
