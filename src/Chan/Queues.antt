-- ===== src/Chan/Queues.antt =====
-- The wait queues of the channels of src/chan.c: what the loops that put the entries of a selector in
-- and take them out do to a family of queues, each with its count.
use lthread.Base.{
  ℕ, zero, suc, ◌+◌, ◌-◌, ◌≤◌, ◌&&◌, List, [], ◌∷◌, ◌==◌, ltb, leb, if◌then◌else◌, length,
  push_back, update, ◌≡◌, ◌≢◌, refl, sym, ◌∙◌, subst, arith,
}
use lthread.Chan.State.{Wait, same_wait, remove_wait}

-- how often an entry stands in a queue
abbrev pub count : Wait → List Wait → ℕ
count x [] = 0
count x (y ∷ ys) = let rest = count x ys in if same_wait y x then suc rest else rest

-- the entries of the other selectors
abbrev pub others : ℕ → List Wait → List Wait
others s [] = []
others s (y ∷ ys) = let rest = others s ys in if y.sel == s then rest else y ∷ rest

count_remove : (x : Wait) (q : List Wait) → count x (remove_wait x q) ≡ count x q - 1
unfolding same_wait remove_wait
count_remove x [] = omega arith
count_remove x (y ∷ ys) = ground (arith, count_remove x ys)

count_remove_other :
    (s i j : ℕ) (q : List Wait)
    → j ≢ i
    → count (record { sel = s; idx = j }) (remove_wait (record { sel = s; idx = i }) q)
      ≡ count (record { sel = s; idx = j }) q
unfolding same_wait remove_wait
count_remove_other s i j [] ne = refl
count_remove_other s i j (y ∷ ys) ne = ground (arith, count_remove_other s i j ys ne)

others-remove :
    (s i : ℕ) (q : List Wait) → others s (remove_wait (record { sel = s; idx = i }) q) ≡ others s q
unfolding same_wait remove_wait
others-remove s i [] = refl
others-remove s i (y ∷ ys) = ground (arith, others-remove s i ys)

pub others_all :
    (s : ℕ) (q : List Wait) → ((j : ℕ) → count (record { sel = s; idx = j }) q ≡ 0) → others s q ≡ q
unfolding same_wait
others_all s [] gone = refl
others_all s (y ∷ ys) gone =
    ground (arith, gone y.idx, others_all s ys (λ j. ground (arith, gone j)))

count-length : (x : Wait) (q : List Wait) → count x q ≤ length q
unfolding same_wait
count-length x [] = omega arith
count-length x (y ∷ ys) = ground (arith, count-length x ys)

length_remove : (x : Wait) (q : List Wait) → count x q ≢ 0 → length (remove_wait x q) ≡ length q - 1
unfolding same_wait remove_wait
length_remove x [] h = absurd (h refl)
length_remove x (y ∷ ys) h = ground (arith, length_remove x ys, count-length x ys)

-- the wait queues of all channels of one kind, each with its count
abbrev pub Lines : Type 0
Lines = ℕ → ℕ × List Wait

abbrev pub Counted : Lines → Type 0
Counted f = (c : ℕ) → (f c).0 ≡ length (f c).1

module _ (s : ℕ) (at : ℕ → ℕ) where
  abbrev pub entry : ℕ → Wait
  entry i = record { sel = s; idx = i }

  abbrev pub leave_one : ℕ → Lines → Lines
  leave_one i f = update f (at i) ((f (at i)).0 - 1, remove_wait (entry i) (f (at i)).1)

  abbrev pub join_one : ℕ → Lines → Lines
  join_one i f = update f (at i) ((f (at i)).0 + 1, push_back (f (at i)).1 (entry i))

  unfoldable pub leave_all : ℕ → ℕ → Lines → Lines
  leave_all zero i f = f
  leave_all (suc n) i f = leave_all n (i + 1) (leave_one i f)

  unfoldable pub join_all : ℕ → ℕ → Lines → Lines
  join_all zero i f = f
  join_all (suc n) i f = join_all n (i + 1) (join_one i f)

  -- The entries of the selector in the queues are those of the `n` indices from `i` on, each once in
  -- the queue of its channel.
  abbrev pub Joined : ℕ → ℕ → Lines → Type 0
  Joined i n f =
      (c j : ℕ)
      → count (entry j) (f c).1 ≡ (if leb i j && ltb j (i + n) && (at j == c) then 1 else 0)

  leave_one-Joined : (n i : ℕ) (f : Lines) → Joined i (suc n) f → Joined (i + 1) n (leave_one i f)
  leave_one-Joined n i f h c j = ground (
    arith,
    h c j,
    count_remove (entry i) (f (at i)).1,
    λ (ne : j ≢ i). count_remove_other s i j (f (at i)).1 ne,
  )

  leave_one-Counted :
      (n i : ℕ) (f : Lines) → Joined i (suc n) f → Counted f → Counted (leave_one i f)
  leave_one-Counted n i f h k c =
      ground (arith, h (at i) i, k c, k (at i), length_remove (entry i) (f (at i)).1)

  leave_one-others : (i : ℕ) (f : Lines) (c : ℕ) → others s (leave_one i f c).1 ≡ others s (f c).1
  leave_one-others i f c = ground (arith, others-remove s i (f (at i)).1)

  pub leave_all_lem :
      (n i : ℕ) (f : Lines)
      → Joined i n f
      → Counted f
      → ((c : ℕ) → (leave_all n i f c).1 ≡ others s (f c).1) × Counted (leave_all n i f)
  unfolding leave_all
  leave_all_lem zero i f h k = ((λ c. sym (others_all s (f c).1 (λ j. ground (arith, h c j)))), k)
  leave_all_lem (suc n) i f h k =
      let (left, counted) =
        leave_all_lem n (i + 1) (leave_one i f) (leave_one-Joined n i f h)
          (leave_one-Counted n i f h k) in
      ((λ c. left c ∙ leave_one-others i f c), counted)

  others-push : (i : ℕ) (q : List Wait) → others s (push_back q (entry i)) ≡ others s q
  others-push i [] = ground arith
  others-push i (y ∷ ys) = ground (arith, others-push i ys)

  count-push :
      (i j : ℕ) (q : List Wait)
      → count (entry j) (push_back q (entry i))
        ≡ (if i == j then count (entry j) q + 1 else count (entry j) q)
  unfolding same_wait
  count-push i j [] = ground arith
  count-push i j (y ∷ ys) = ground (arith, count-push i j ys)

  length-push : (x : Wait) (q : List Wait) → length (push_back q x) ≡ length q + 1
  length-push x [] = refl
  length-push x (y ∷ ys) = omega (arith, length-push x ys)

  join_one-Joined : (a m : ℕ) (f : Lines) → Joined a m f → Joined a (m + 1) (join_one (a + m) f)
  join_one-Joined a m f h c j = ground (arith, h c j, count-push (a + m) j (f (at (a + m))).1)

  join_one-others : (i : ℕ) (f : Lines) (c : ℕ) → others s (join_one i f c).1 ≡ others s (f c).1
  join_one-others i f c = ground (arith, others-push i (f (at i)).1)

  join_one-Counted : (i : ℕ) (f : Lines) → Counted f → Counted (join_one i f)
  join_one-Counted i f k c = ground (arith, k c, k (at i), length-push (entry i) (f (at i)).1)

  pub join_all_lem :
      (n a m i : ℕ) (f : Lines)
      → i ≡ a + m
      → Joined a m f
      → Counted f
      → Joined a (m + n) (join_all n i f)
        × ((c : ℕ) → others s (join_all n i f c).1 ≡ others s (f c).1)
        × Counted (join_all n i f)
  unfolding join_all
  join_all_lem zero a m i f e h k =
      let same : m ≡ m + 0 = omega arith in (subst (λ x. Joined a x f) same h, (λ c. refl), k)
  join_all_lem (suc n) a m i f e h k =
      let h' : Joined a (m + 1) (join_one i f) =
        subst (λ x. Joined a (m + 1) (join_one x f)) (sym e) (join_one-Joined a m f h) in
      let (joined, left, counted) =
        join_all_lem n a (m + 1) (i + 1) (join_one i f) (omega arith) h' (join_one-Counted i f k) in
      let next : m + 1 + n ≡ m + suc n = omega arith in
      (
        subst (λ x. Joined a x (join_all n (i + 1) (join_one i f))) next joined,
        (λ c. left c ∙ join_one-others i f c),
        counted,
      )
