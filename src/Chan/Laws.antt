-- ===== src/Chan/Laws.antt =====
-- What closing a channel of src/chan.c does, and how a message passes from a sender to a receiver
-- that waits.
use lthread.Base.{
  ℕ, zero, suc, ◌+◌, ◌<◌, ◌≡◌, ◌≢◌, refl, ap, ◌∙◌, Bool, true, false, Bool-cases, Option, none,
  some, inl, inr, arith, List, [], ◌∷◌, length, get_or-set_self, get_or,
}
use lthread.Rb.{RbTree}
use lthread.Chan.State.{Wait, Sel, World, set_chan, set_target, msg}
use lthread.Chan.Try.{
  is_open, has_room, find_open, leave_sendqs, leave_recvqs, sel_remove_all_chans, serve, hand_to,
  finish, Attempt, try_send,
}
use lthread.Chan.Select.{
  give_null, close_waiters, chan_close, chan_is_closed, chan_send, done, epipe,
}

module _ ⦃T : RbTree⦄ where
  -- Leaving the wait queues changes no selector and closes or opens no channel.
  pub record SameBut (w w' : World) : Type 0 where
    pub same_sel : w'.sel ≡ w.sel
    pub same_closed : (c : ℕ) → (w'.chan c).closed ≡ (w.chan c).closed

  SameBut-trans : {u v w : World} → SameBut u v → SameBut v w → SameBut u w
  SameBut-trans a b = record {
    same_sel = b.same_sel ∙ a.same_sel;
    same_closed = λ c. b.same_closed c ∙ a.same_closed c;
  }

  leave_sendqs-SameBut : (s n i : ℕ) (w : World) → SameBut w (leave_sendqs s n i w)
  unfolding leave_sendqs
  leave_sendqs-SameBut s zero i w = record { same_sel = refl; same_closed = λ c. refl }
  leave_sendqs-SameBut s (suc n) i w =
      SameBut-trans (record { same_sel = refl; same_closed = λ c. ground arith })
        (leave_sendqs-SameBut s n (i + 1) _)

  leave_recvqs-SameBut : (s n i : ℕ) (w : World) → SameBut w (leave_recvqs s n i w)
  unfolding leave_recvqs
  leave_recvqs-SameBut s zero i w = record { same_sel = refl; same_closed = λ c. refl }
  leave_recvqs-SameBut s (suc n) i w =
      SameBut-trans (record { same_sel = refl; same_closed = λ c. ground arith })
        (leave_recvqs-SameBut s n (i + 1) _)

  remove_all-SameBut : (s : ℕ) (w : World) → SameBut w (sel_remove_all_chans s w)
  unfolding sel_remove_all_chans
  remove_all-SameBut s w =
      let n = (w.sel s).wchan_count in
      SameBut-trans (leave_sendqs-SameBut s n 0 w)
        (leave_recvqs-SameBut s (w.sel s).rchan_count n (leave_sendqs s n 0 w))

  give_null-closed :
      (x : Wait) (c : ℕ) (w : World) → ((give_null x w).chan c).closed ≡ (w.chan c).closed
  give_null-closed x c w = elim (Bool-cases (is_open x.sel w)) [
    | inl open_ ↦ rw open_ ((remove_all-SameBut x.sel _).same_closed c)
    | inr shut ↦ rw shut refl
  ]

  close_waiters-closed :
      (xs : List Wait) (c : ℕ) (w : World)
      → ((close_waiters xs w).chan c).closed ≡ (w.chan c).closed
  unfolding close_waiters
  close_waiters-closed [] c w = refl
  close_waiters-closed (x ∷ xs) c w =
      close_waiters-closed xs c (give_null x w) ∙ give_null-closed x c w

  abbrev shut_down : ℕ → World → World
  shut_down c w = set_chan c (record (w.chan c) { closed = true }) w

  close_open :
      (c : ℕ) (w : World)
      → (w.chan c).closed ≡ false
      → chan_close c w ≡ (true, close_waiters ((shut_down c w).chan c).recvq (shut_down c w))
  unfolding chan_close
  close_open c w h = ground (arith, h)

  close_shut : (c : ℕ) (w : World) → (w.chan c).closed ≡ true → chan_close c w ≡ (false, w)
  unfolding chan_close
  close_shut c w h = ground (arith, h)

  send_shut : (s c v : ℕ) (w : World) → (w.chan c).closed ≡ true → chan_send s c v w ≡ done epipe w
  unfolding chan_send
  send_shut s c v w h = ground (arith, h)

  shut_down-closed : (c : ℕ) (w : World) → ((shut_down c w).chan c).closed ≡ true
  shut_down-closed c w = ground arith

  closed_after :
      (c : ℕ) (w : World) → (w.chan c).closed ≡ false → ((chan_close c w).1.chan c).closed ≡ true
  closed_after c w h =
      ap (λ (r : Bool × World). (r.1.chan c).closed) (close_open c w h)
      ∙ close_waiters-closed ((shut_down c w).chan c).recvq c (shut_down c w)
      ∙ shut_down-closed c w

  -- Closing an open channel succeeds; afterwards the channel is closed, closing it again fails and
  -- changes nothing, and so does sending on it, with EPIPE.
  pub chan_close-closed :
      (s c v : ℕ) (w : World)
      → chan_is_closed c w ≡ false
      → let w' = (chan_close c w).1 in
        ((chan_close c w).0 ≡ true)
        × (chan_is_closed c w' ≡ true)
        × (chan_close c w' ≡ (false, w'))
        × (chan_send s c v w' ≡ done epipe w')
  unfolding chan_is_closed
  chan_close-closed s c v w h =
      let w' = (chan_close c w).1 in
      let shut = closed_after c w h in
      (
        ap (λ (r : Bool × World). r.0) (close_open c w h),
        shut,
        close_shut c w' shut,
        send_shut s c v w' shut,
      )

  try_send_hands :
      (s c i : ℕ) (x : Wait) (w : World)
      → (w.chan c).closed ≡ false
      → has_room (w.chan c).queue ≡ false
      → find_open (w.chan c).recvq w ≡ some x
      → try_send s c i w ≡ some (finish s (serve x (hand_to false s c i x w)))
  unfolding try_send
  try_send_hands s c i x w open_ full first = ground (arith, open_, full, first)

  serve_open :
      (x : Wait) (w : World)
      → (w.sel x.sel).target ≡ none
      → serve x w ≡ (some x, set_target x.sel (some x.idx) (sel_remove_all_chans x.sel w))
  unfolding serve
  serve_open x w idle = ground (arith, idle)

  module _ (s c i : ℕ) (x : Wait) (w : World) (ne : x.sel ≢ s) where
    handed-idle : (w.sel x.sel).target ≡ none → ((hand_to false s c i x w).sel x.sel).target ≡ none
    handed-idle idle = ground (arith, idle)

    handed-msg :
        x.idx < length (w.sel x.sel).msgs
        → get_or ((hand_to false s c i x w).sel x.sel).msgs x.idx 0 ≡ msg s i w
    handed-msg bound = ground (arith, get_or-set_self (w.sel x.sel).msgs x.idx (msg s i w) 0 bound)

    handed-target : ((hand_to false s c i x w).sel s).target ≡ some i
    handed-target = ground arith

    abbrev served_world : World
    served_world =
        set_target x.sel (some x.idx) (sel_remove_all_chans x.sel (hand_to false s c i x w))

    removed_sel :
        (sel_remove_all_chans x.sel (hand_to false s c i x w)).sel ≡ (hand_to false s c i x w).sel
    removed_sel = (remove_all-SameBut x.sel (hand_to false s c i x w)).same_sel

    served-target : (served_world.sel s).target ≡ some i
    served-target = ground (arith, ap (λ (f : ℕ → Sel). (f s).target) removed_sel, handed-target)

    served-msg : x.idx < length (w.sel x.sel).msgs → msg x.sel x.idx served_world ≡ msg s i w
    served-msg bound =
        ground
          (arith, ap (λ (f : ℕ → Sel). get_or (f x.sel).msgs x.idx 0) removed_sel, handed-msg bound)

    served-own : (served_world.sel x.sel).target ≡ some x.idx
    served-own = ground arith

    served_open : is_open s served_world ≡ false
    served_open = ground (arith, served-target)

    -- Let a receiver wait on an open channel that has no buffer or no room in it, let it be the
    -- first in the queue whose selector nobody has served, not the selector of the sender, and let
    -- its message index be in bounds. An attempt to send then succeeds: the slot of the receiver
    -- gets the message of the sender, both selectors get the index of their entry as target, and
    -- the entry served is that of the receiver.
    pub rendezvous :
        (w.chan c).closed ≡ false
        → has_room (w.chan c).queue ≡ false
        → find_open (w.chan c).recvq w ≡ some x
        → (w.sel x.sel).target ≡ none
        → x.idx < length (w.sel x.sel).msgs
        → (a : Attempt) × (try_send s c i w ≡ some a)
          × (a.hit ≡ true)
          × (a.served ≡ some x)
          × (msg x.sel x.idx a.world ≡ msg s i w)
          × ((a.world.sel x.sel).target ≡ some x.idx)
          × ((a.world.sel s).target ≡ some i)
    rendezvous open_ full first idle bound = (
      finish s (some x, served_world),
      try_send_hands s c i x w open_ full first
          ∙ ap (λ (r : Option Wait × World). some (finish s r))
              (serve_open x (hand_to false s c i x w) (handed-idle idle)),
      rw served_open refl,
      refl,
      served-msg bound,
      served-own,
      served-target,
    )
