-- ===== src/Kqueue/Laws.antt =====
-- The list of changes of src/lthread_kqueue.c: what it makes the kqueue watch at the next poll.
use lthread.Base.{
  ℕ, ◌<◌, ◌≤◌, Bool, true, false, ◌&&◌, Option, none, some, ◌≡◌, refl, sym, ap, ◌∙◌, ◌==◌,
  if◌then◌else◌, List, [], ◌∷◌, ◌++◌, length, length-append, arith,
}
use lthread.Kqueue.{
  Filter, evfilt_read, evfilt_write, same_filter, ev_add, Change, Kevent, lt_max_events, Poller,
  submit, submit_all, flush_events, add_change, with_set, register, kq_register_rd, kq_register_wr,
  kq_clear_rd, kq_poll,
}

-- what a list of registrations makes of one entry
unfoldable latest : List Change → ℕ → Filter → Option ℕ → Option ℕ
latest [] d g o = o
latest (c ∷ cs) d g o =
    latest cs d g (if d == c.ident && same_filter g c.filter then some c.udata else o)

latest-append :
    (cs : List Change) (c : Change) (d : ℕ) (g : Filter) (o : Option ℕ)
    → latest (cs ++ (c ∷ [])) d g o
      ≡ (if d == c.ident && same_filter g c.filter then some c.udata else latest cs d g o)
unfolding latest
latest-append [] c d g o = refl
latest-append (b ∷ cs) c d g o =
    latest-append cs c d g (if d == b.ident && same_filter g b.filter then some b.udata else o)

module _ ⦃K : Kevent⦄ where
  -- registrations of descriptors that the kqueue supports
  pub data Adds (s : K.Set) : List Change → Type 0 where
    adds_nil : Adds s []
    adds_cons :
        (fd : ℕ) (f : Filter) (p : ℕ) (cs : List Change)
        → K.can_watch fd f s ≡ true
        → Adds s cs
        → Adds s (record { ident = fd; filter = f; flags = ev_add; udata = p } ∷ cs)

  abbrev SameSupport : K.Set → K.Set → Type 0
  SameSupport s s' = (d : ℕ) (g : Filter) → K.can_watch d g s' ≡ K.can_watch d g s

  Adds-same : (s s' : K.Set) (cs : List Change) → SameSupport s s' → Adds s cs → Adds s' cs
  Adds-same s s' [] same adds_nil = adds_nil
  Adds-same s s' _ same (adds_cons fd f p cs ok ws) =
      adds_cons fd f p cs (same fd f ∙ ok) (Adds-same s s' cs same ws)

  Adds-append :
      (s : K.Set) (cs : List Change) (fd : ℕ) (f : Filter) (p : ℕ)
      → Adds s cs
      → K.can_watch fd f s ≡ true
      → Adds s (cs ++ (record { ident = fd; filter = f; flags = ev_add; udata = p } ∷ []))
  Adds-append s [] fd f p adds_nil ok = adds_cons fd f p [] ok adds_nil
  Adds-append s _ fd f p (adds_cons fd' f' p' cs ok' ws) ok =
      adds_cons fd' f' p' _ ok' (Adds-append s cs fd f p ws ok)

  -- A list of registrations succeeds, at once or one by one.
  submit_lem :
      (cs : List Change) (s : K.Set)
      → Adds s cs
      → (s' : K.Set) × (submit cs s ≡ some s')
        × (submit_all cs s ≡ s')
        × SameSupport s s'
        × ((d : ℕ) (g : Filter) → K.watched d g s' ≡ latest cs d g (K.watched d g s))
  unfolding submit submit_all latest
  submit_lem [] s adds_nil = (s, refl, refl, (λ d g. refl), (λ d g. refl))
  submit_lem (_ ∷ cs) s (adds_cons fd f p _ ok ws) =
      let (s1, go, same, seen) = K.change-add fd f p s ok in
      let (s', one, all, same', seen') = submit_lem cs s1 (Adds-same s s1 cs same ws) in
      (
        s',
        rw (submit, go) one,
        rw (submit_all, go) all,
        (λ d g. same' d g ∙ same d g),
        (λ d g. seen' d g ∙ ap (latest cs d g) (seen d g)),
      )

  poll_lem :
      (k : Poller) (d : ℕ) (g : Filter)
      → Adds k.poller_fd k.changelist
      → K.watched d g (kq_poll k).poller_fd ≡ latest k.changelist d g (K.watched d g k.poller_fd)
  unfolding kq_poll
  poll_lem k d g ws =
      let (s', one, all, same, seen) = submit_lem k.changelist k.poller_fd ws in
      ap (K.watched d g) all ∙ seen d g

  -- A registration is made, and the next poll watches for it, and otherwise for what it would have.
  abbrev pub Registered : ℕ → ℕ → Filter → Poller → Option Poller → Type 0
  Registered p fd f k r =
      (k' : Poller) × (r ≡ some k')
      × Adds k'.poller_fd k'.changelist
      × (length k'.changelist ≤ lt_max_events)
      × ((d : ℕ) (g : Filter)
          → K.watched d g (kq_poll k').poller_fd
            ≡ (if d == fd && same_filter g f then some p else K.watched d g (kq_poll k).poller_fd))

  appended :
      (p fd : ℕ) (f : Filter) (k : Poller) (d : ℕ) (g : Filter)
      → Adds k.poller_fd k.changelist
      → K.can_watch fd f k.poller_fd ≡ true
      → K.watched d g
          (kq_poll
            (add_change (record { ident = fd; filter = f; flags = ev_add; udata = p }) k)).poller_fd
        ≡ (if d == fd && same_filter g f then some p else K.watched d g (kq_poll k).poller_fd)
  appended p fd f k d g ws ok =
      let c : Change = record { ident = fd; filter = f; flags = ev_add; udata = p } in
      poll_lem (add_change c k) d g (Adds-append k.poller_fd k.changelist fd f p ws ok)
      ∙ latest-append k.changelist c d g (K.watched d g k.poller_fd)
      ∙ ap (λ o. if d == fd && same_filter g f then some p else o) (sym (poll_lem k d g ws))

  register-Registered :
      (p fd : ℕ) (f : Filter) (k : Poller)
      → Adds k.poller_fd k.changelist
      → length k.changelist ≤ lt_max_events
      → K.can_watch fd f k.poller_fd ≡ true
      → (b : Bool) → (length k.changelist == lt_max_events) ≡ b
      → Registered p fd f k
          (register (record { ident = fd; filter = f; flags = ev_add; udata = p }) k)
  unfolding register flush_events kq_poll submit_all
  register-Registered p fd f k ws room ok false e =
      let c : Change = record { ident = fd; filter = f; flags = ev_add; udata = p } in
      (
        add_change c k,
        rw (register, e) refl,
        Adds-append k.poller_fd k.changelist fd f p ws ok,
        ground (arith, length-append k.changelist (c ∷ [])),
        λ d g. appended p fd f k d g ws ok,
      )
  register-Registered p fd f k ws room ok true e =
      let c : Change = record { ident = fd; filter = f; flags = ev_add; udata = p } in
      let (s', one, all, same, seen) = submit_lem k.changelist k.poller_fd ws in
      let k1 : Poller = record { poller_fd = s'; changelist = [] } in
      let ok' = same fd f ∙ ok in
      (
        add_change c k1,
        rw (register, e, one) refl,
        adds_cons fd f p [] ok' adds_nil,
        omega arith,
        λ d g.
            appended p fd f k1 d g adds_nil ok'
            ∙ ap (λ s. if d == fd && same_filter g f then some p else K.watched d g s) (sym all),
      )

  -- Let the pending changes of the kqueue poller be registrations of descriptors that the kqueue
  -- supports, at most LT_MAX_EVENTS of them, and let it support reading from `fd`. Then a
  -- registration of `fd` for reading by the thread `p` fails no assertion, also when the list is
  -- full and is flushed first; the pending changes are again such registrations and at most
  -- LT_MAX_EVENTS; and the next poll watches `fd` for reading by `p`, and every other descriptor
  -- and filter as a poll without the registration would.
  pub kq_register_rd-Registered :
      (p fd : ℕ) (k : Poller)
      → Adds k.poller_fd k.changelist
      → length k.changelist ≤ lt_max_events
      → K.can_watch fd evfilt_read k.poller_fd ≡ true
      → Registered p fd evfilt_read k (kq_register_rd p fd k)
  unfolding kq_register_rd
  kq_register_rd-Registered p fd k ws room ok =
      register-Registered p fd evfilt_read k ws room ok (length k.changelist == lt_max_events) refl

  kq_register_wr-Registered :
      (p fd : ℕ) (k : Poller)
      → Adds k.poller_fd k.changelist
      → length k.changelist ≤ lt_max_events
      → K.can_watch fd evfilt_write k.poller_fd ≡ true
      → Registered p fd evfilt_write k (kq_register_wr p fd k)
  unfolding kq_register_wr
  kq_register_wr-Registered p fd k ws room ok =
      register-Registered p fd evfilt_write k ws room ok (length k.changelist == lt_max_events) refl

  -- A registration for reading of a descriptor that the kqueue does not watch, with room in the list
  -- of changes, succeeds; clearing it before the next poll fails an assertion.
  pub clear_unpolled :
      (p fd : ℕ) (k : Poller)
      → length k.changelist < lt_max_events
      → K.watched fd evfilt_read k.poller_fd ≡ none
      → (k' : Poller) × (kq_register_rd p fd k ≡ some k') × (kq_clear_rd fd k' ≡ none)
  unfolding kq_register_rd register kq_clear_rd
  clear_unpolled p fd k room absent =
      let c : Change = record { ident = fd; filter = evfilt_read; flags = ev_add; udata = p } in
      let e : (length k.changelist == lt_max_events) ≡ false = ground arith in
      (
        add_change c k,
        rw (kq_register_rd, register, e) refl,
        ap (with_set (add_change c k)) (K.change-delete_absent fd evfilt_read 0 k.poller_fd absent),
      )
