-- ===== src/Epoll/Laws.antt =====
-- Registrations of src/lthread_epoll.c, for one waiter of a descriptor and for two.
use lthread.Base.{ℕ, true, Option, none, some, ◌≡◌, refl, ◌∙◌, ◌==◌, if◌then◌else◌, arith}
use lthread.Epoll.{
  EpollEvent, Epoll, read_events, write_events, mod_or_add, ev_register_rd, ev_register_wr,
  ev_clear_rd, ev_clear_wr,
}

module _ ⦃E : Epoll⦄ where
  -- The assertion of a registration holds, and only the entry of `fd` changes.
  abbrev pub Watches : ℕ → EpollEvent → E.Set → Option E.Set → Type 0
  Watches fd ev s r =
      (s' : E.Set) × (r ≡ some s')
      × ((d : ℕ) → E.can_poll d s' ≡ E.can_poll d s)
      × ((d : ℕ) → E.interest d s' ≡ (if d == fd then some ev else E.interest d s))

  mod_or_add-Watches :
      (fd : ℕ) (ev : EpollEvent) (s : E.Set)
      → E.can_poll fd s ≡ true
      → (o : Option EpollEvent) → E.interest fd s ≡ o
      → Watches fd ev s (mod_or_add fd ev s)
  unfolding mod_or_add
  mod_or_add-Watches fd ev s ok none e =
      let (s', added, same, seen) = E.ctl_add-absent fd ev s ok e in
      (s', rw (mod_or_add, E.ctl_mod-absent fd ev s e, added), same, seen)
  mod_or_add-Watches fd ev s ok (some old) e =
      let (s', changed, same, seen) = E.ctl_mod-present fd ev old s ok e in
      (s', rw (mod_or_add, changed), same, seen)

  -- When a descriptor that epoll supports is registered for reading and then for writing, it is no
  -- longer watched for reading. Clearing it for reading then removes it, and clearing it for
  -- writing after that fails an assertion.
  pub two_waiters :
      (fd : ℕ) (s : E.Set)
      → E.can_poll fd s ≡ true
      → (s1 s2 s3 : E.Set) × (ev_register_rd fd s ≡ some s1)
        × (E.interest fd s1 ≡ some (record { events = read_events; data_fd = fd }))
        × (ev_register_wr fd s1 ≡ some s2)
        × (E.interest fd s2 ≡ some (record { events = write_events; data_fd = fd }))
        × (ev_clear_rd fd s2 ≡ some s3)
        × (ev_clear_wr fd s3 ≡ none)
  two_waiters fd s ok =
      let rd : EpollEvent = record { events = read_events; data_fd = fd } in
      let wr : EpollEvent = record { events = write_events; data_fd = fd } in
      let (s1, go1, same1, seen1) = mod_or_add-Watches fd rd s ok (E.interest fd s) refl in
      let in1 : E.interest fd s1 ≡ some rd = ground (arith, seen1 fd) in
      let (s2, go2, same2, seen2) = mod_or_add-Watches fd wr s1 (same1 fd ∙ ok) (some rd) in1 in
      let in2 : E.interest fd s2 ≡ some wr = ground (arith, seen2 fd) in
      let (s3, go3, same3, seen3) =
        E.ctl_del-present fd (record { events = read_events; data_fd = fd }) wr s2 in2 in
      let in3 : E.interest fd s3 ≡ none = ground (arith, seen3 fd) in
      (
        s1,
        s2,
        s3,
        go1,
        in1,
        go2,
        in2,
        go3,
        E.ctl_del-absent fd (record { events = write_events; data_fd = fd }) s3 in3,
      )
