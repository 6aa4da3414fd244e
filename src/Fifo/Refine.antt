-- ===== src/Fifo/Refine.antt =====
-- The calls on `queue_t` of src/fifo.c next to those on a bounded sequence of values.
use mathlib.Core.Path.{ap₂}
use lthread.Base.{
  ℕ, zero, suc, ◌+◌, ◌-◌, ◌≤◌, ◌<◌, ◌≡◌, ◌≢◌, refl, ap, ◌∙◌, Bool, true, false, Option, none, some,
  List, [], ◌∷◌, ◌++◌, arith, leb, if◌then◌else◌, length, get_or, set, get_or-set_self,
  get_or-set_ne,
}
use lthread.Fifo.Spec
use lthread.Fifo.Spec.{Op, put, get, look, Reply, added, value}
use lthread.Fifo.{Queue, Errno, add_pos, queue_add, queue_remove, queue_peek}
use lthread.Fifo.Bounds.{
  IsValid, queue_add-IsValid, queue_remove-IsValid, capacity-queue_add, capacity-queue_remove,
}

-- the index after `h`, going round at `cap`
abbrev succ_mod : ℕ → ℕ → ℕ
succ_mod cap h = if leb cap (h + 1) then h + 1 - cap else h + 1

module _ (slots : List ℕ) (cap : ℕ) where
  -- the `n` values from index `h` on
  abbrev pub window : ℕ → ℕ → List ℕ
  window h zero = []
  window h (suc n) = get_or slots h 0 ∷ window (succ_mod cap h) n

  length-window : (h n : ℕ) → length (window h n) ≡ n
  length-window h zero = refl
  length-window h (suc n) = ap suc (length-window (succ_mod cap h) n)

  window_pos : (h n : ℕ) → 0 < n → window h n ≡ get_or slots h 0 ∷ window (succ_mod cap h) (n - 1)
  window_pos h zero p = absurd (omega arith)
  window_pos h (suc n) p = ap (λ k. window h (suc k)) (omega arith)

abbrev pub contents : Queue → List ℕ
contents q = window q.slots q.capacity q.next q.size

pub length-contents : (q : Queue) → length (contents q) ≡ q.size
length-contents q = length-window q.slots q.capacity q.next q.size

-- the index `n` places after `h`
abbrev place : ℕ → ℕ → ℕ → ℕ
place cap h n = if leb cap (h + n) then h + n - cap else h + n

place_step :
    (cap h n : ℕ) → h < cap → suc n < cap → place cap h (suc n) ≡ place cap (succ_mod cap h) n
place_step cap h n hh hn = ground arith

place_ne : (cap h n : ℕ) → h < cap → suc n < cap → place cap h (suc n) ≢ h
place_ne cap h n hh hn = ground arith

-- Writing just past a window extends it by that value.
window-set :
    (slots : List ℕ) (cap x n h i : ℕ)
    → cap ≤ length slots
    → h < cap
    → n < cap
    → i ≡ place cap h n
    → window (set slots i x) cap h (suc n) ≡ window slots cap h n ++ x ∷ []
window-set slots cap x zero h i hs hh hn e = ground (arith, get_or-set_self slots h x 0)
window-set slots cap x (suc n) h i hs hh hn e =
    ap₂ ◌∷◌ (get_or-set_ne slots x 0 (rw e (place_ne cap h n hh hn))) (
      window-set slots cap x n (succ_mod cap h) i hs (ground arith) (omega arith)
        (e ∙ place_step cap h n hh hn))

abbrev accepted : Option Errno → Bool
accepted none = true
accepted (some e) = false

-- `queue_add` answers as the bounded sequence does, and leaves the queue holding its result.
pub queue_add_refines :
    (q : Queue) (x : ℕ)
    → IsValid q
    → let (s, q') = queue_add q x in (accepted s, contents q') ≡ Spec.add q.capacity (contents q) x
unfolding queue_add Spec.add
queue_add_refines q x v =
    ground (arith, length-contents q, window-set q.slots q.capacity x q.size q.next (add_pos q))

pub queue_remove_refines :
    (q : Queue)
    → IsValid q
    → let (x, q') = queue_remove q in (x, contents q') ≡ Spec.remove (contents q)
unfolding queue_remove Spec.remove
queue_remove_refines q v = ground (arith, window_pos q.slots q.capacity q.next q.size)

pub queue_peek_refines : (q : Queue) → IsValid q → queue_peek q ≡ Spec.peek (contents q)
unfolding queue_peek Spec.peek
queue_peek_refines q v = ground (arith, window_pos q.slots q.capacity q.next q.size)

-- a client's calls in order, with what each returns
unfoldable pub run : Queue → List Op → List Reply
run q [] = []
run q (put x ∷ ops) = let (s, q') = queue_add q x in added (accepted s) ∷ run q' ops
run q (get ∷ ops) = let (x, q') = queue_remove q in value x ∷ run q' ops
run q (look ∷ ops) = value (queue_peek q) ∷ run q ops

-- No sequence of calls on a valid queue can be told from the same calls on the bounded sequence of
-- the values that it holds: every status, removed value and peeked value agrees.
pub run_refines :
    (q : Queue) (ops : List Op) → IsValid q → run q ops ≡ Spec.run q.capacity (contents q) ops
unfolding run Spec.run
run_refines q [] v = refl
run_refines q (put x ∷ ops) v = rw (
  run_refines (queue_add q x).1 ops (queue_add-IsValid q x v),
  ← queue_add_refines q x v,
  capacity-queue_add,
)
run_refines q (get ∷ ops) v = rw (
  run_refines (queue_remove q).1 ops (queue_remove-IsValid q v),
  ← queue_remove_refines q v,
  capacity-queue_remove,
)
run_refines q (look ∷ ops) v = rw (run_refines q ops v, queue_peek_refines q v)
