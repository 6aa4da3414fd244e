-- ===== src/Socket/Line.antt =====
-- `lthread_readline` of src/lthread_socket.c.
use lthread.Base.{
  ℕ, zero, suc, ◌+◌, ◌≤◌, ◌<◌, ◌≡◌, ◌≢◌, ◌⊎◌, refl, sym, ap, ◌∙◌, subst, Bool, true, false,
  Bool-cases, ==_eq, inl, inr, arith, ◌==◌, List, [], ◌∷◌, length, length-append, push_back,
  if◌then◌else◌,
}
use lthread.Socket.Wait.{Result, count, minus_one, minus_two, assert_failed, no_fuel}
use lthread.Socket.Transfer.{Line, line, refused, no_memory, read_bytes, readline}

-- a list without a line feed
abbrev pub NoFeed : List ℕ → Type 0
NoFeed [] = Unit
NoFeed (b ∷ bs) = (b == 10 ≡ false) × NoFeed bs

NoFeed-push_back : (l : List ℕ) (b : ℕ) → NoFeed l → b == 10 ≡ false → NoFeed (push_back l b)
NoFeed-push_back [] b ok e = (e, tt)
NoFeed-push_back (a ∷ l) b (o, ok) e = (o, NoFeed-push_back l b ok e)

-- A line without a line feed fills the room, or its only line feed is its end.
abbrev pub LineEnds : ℕ → List ℕ → Type 0
LineEnds max l =
    ((length l ≡ max) × NoFeed l)
    ⊎ ((ls : List ℕ) × (l ≡ push_back ls 10) × (length l ≤ max) × NoFeed ls)

module _ {W : Type 0} (recv_byte : W → Result × ℕ × W) where
  -- From the first state on, receives that succeed deliver the bytes in order, up to the second state.
  abbrev pub Received : List ℕ → W → W → Type 0
  Received [] w w' = w ≡ w'
  Received (b ∷ bs) w w' =
      (n : ℕ) × (v : W) × (recv_byte w ≡ (count (suc n), b, v)) × Received bs v w'

  Received-push_back :
      (l : List ℕ) (w : W) {v v' : W} {n b : ℕ}
      → Received l w v
      → recv_byte v ≡ (count (suc n), b, v')
      → Received (push_back l b) w v'
  Received-push_back [] w {v} {v'} {n} got h = (n, v', ap recv_byte got ∙ h, refl)
  Received-push_back (a ∷ l) w (m, u, e, got) h = (m, u, e, Received-push_back l u got h)

  -- What readline leaves: a line of bytes received from `w` on, or the result of a receive that
  -- failed behind bytes that end no line, or it had no memory and received nothing.
  abbrev pub IsLine : Bool → ℕ → W → Line × W → Type 0
  IsLine memory max w (line l, w') = Received l w w' × LineEnds max l
  IsLine memory max w (refused r, w') =
      (ls : List ℕ) × (v : W) × (b : ℕ) × Received ls w v
      × NoFeed ls
      × (length ls < max)
      × (recv_byte v ≡ (r, b, w'))
      × ((n : ℕ) → r ≢ count (suc n))
  IsLine memory max w (no_memory, w') = (memory ≡ false) × (w' ≡ w)

  read_step :
      (room : ℕ) (l : List ℕ) (w : W) {n b : ℕ} {w' : W}
      → recv_byte w ≡ (count (suc n), b, w')
      → read_bytes recv_byte (suc room) l w ≡ (
          if b == 10
          then (line (push_back l b), w')
          else read_bytes recv_byte room (push_back l b) w')
  unfolding read_bytes
  read_step room l w h = ground (arith, h)

  read_stop :
      (room : ℕ) (l : List ℕ) (w : W) (r : Result) {b : ℕ} {w' : W}
      → ((n : ℕ) → r ≢ count (suc n))
      → recv_byte w ≡ (r, b, w')
      → read_bytes recv_byte (suc room) l w ≡ (refused r, w')
  unfolding read_bytes
  read_stop room l w (count zero) n h = ground (arith, h)
  read_stop room l w (count (suc m)) n h = absurd (n m refl)
  read_stop room l w minus_one n h = ground (arith, h)
  read_stop room l w minus_two n h = ground (arith, h)
  read_stop room l w assert_failed n h = ground (arith, h)
  read_stop room l w no_fuel n h = ground (arith, h)

  recv_cases :
      (out : Result × ℕ × W)
      → ((n b : ℕ) × (w' : W) × (out ≡ (count (suc n), b, w')))
        ⊎ ((r : Result) × (b : ℕ) × (w' : W) × ((n : ℕ) → r ≢ count (suc n)) × (out ≡ (r, b, w')))
  recv_cases (count zero, b, w) = inr (count 0, b, w, λ n e. absurd (grind (arith, e)), refl)
  recv_cases (count (suc n), b, w) = inl (n, b, w, refl)
  recv_cases (minus_one, b, w) = inr (minus_one, b, w, λ n e. cc, refl)
  recv_cases (minus_two, b, w) = inr (minus_two, b, w, λ n e. cc, refl)
  recv_cases (assert_failed, b, w) = inr (assert_failed, b, w, λ n e. cc, refl)
  recv_cases (no_fuel, b, w) = inr (no_fuel, b, w, λ n e. cc, refl)

  read_newline :
      (room : ℕ) (l : List ℕ) (w : W) {n b : ℕ} {w' : W}
      → recv_byte w ≡ (count (suc n), b, w')
      → b == 10 ≡ true
      → read_bytes recv_byte (suc room) l w ≡ (line (push_back l 10), w')
  read_newline room l w {n} {b} {w'} h e =
      read_step room l w h ∙ rw e (ap (λ c. (line (push_back l c), w')) (==_eq b 10 e))

  read_on :
      (room : ℕ) (l : List ℕ) (w : W) {n b : ℕ} {w' : W}
      → recv_byte w ≡ (count (suc n), b, w')
      → b == 10 ≡ false
      → read_bytes recv_byte (suc room) l w ≡ read_bytes recv_byte room (push_back l b) w'
  read_on room l w h e = read_step room l w h ∙ rw e refl

  read_bytes-IsLine :
      (room : ℕ) (l : List ℕ) (v w : W)
      → Received l v w
      → NoFeed l
      → IsLine true (length l + room) v (read_bytes recv_byte room l w)
  unfolding read_bytes
  read_bytes-IsLine zero l v w got plain = (got, inl (omega arith, plain))
  read_bytes-IsLine (suc room) l v w got plain = elim (recv_cases (recv_byte w)) [
    | inl (n, b, w', h) ↦ elim (Bool-cases (b == 10)) [
      | inl e ↦ subst (IsLine true (length l + suc room) v) (sym (read_newline room l w h e)) (
        subst (λ c. Received (push_back l c) v w') (==_eq b 10 e) (Received-push_back l v got h),
        inr (l, refl, omega (arith, length-append l (10 ∷ [])), plain),
      )
      | inr e ↦ subst (IsLine true (length l + suc room) v) (sym (read_on room l w h e)) (
          subst (λ (m : ℕ). IsLine true m v (read_bytes recv_byte room (push_back l b) w'))
            (omega (arith, length-append l (b ∷ [])))
            (read_bytes-IsLine room (push_back l b) v w' (Received-push_back l v got h)
              (NoFeed-push_back l b plain e)))
    ]
    | inr (r, b, w', fails, h) ↦
        subst (IsLine true (length l + suc room) v) (sym (read_stop room l w r fails h))
          (l, w, b, got, plain, omega arith, h, fails)
  ]

  -- A line that lthread_readline returns consists of the bytes that the receives from its start on
  -- delivered, in their order and no others; it has no line feed but at its end, and ends with the
  -- first one, or without one when it has as many bytes as there was room for, and never has more.
  -- When it fails, it returns the result of a receive that failed behind fewer bytes than that and
  -- no line feed, or it had no memory and received nothing.
  pub readline-IsLine :
      (memory : Bool) (max : ℕ) (w : W) → IsLine memory max w (readline recv_byte memory max w)
  unfolding readline
  readline-IsLine false max w = (refl, refl)
  readline-IsLine true max w =
      subst (λ (m : ℕ). IsLine true m w (read_bytes recv_byte max [] w)) (omega arith)
        (read_bytes-IsLine max [] w w refl tt)
