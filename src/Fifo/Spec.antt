-- ===== src/Fifo/Spec.antt =====
-- What src/fifo.h promises: a bounded sequence of values, oldest first. An error is none or
-- ENOBUFS, and a removal from the empty sequence yields NULL.
use lthread.Base.{ℕ, Bool, true, false, List, [], ◌∷◌, ◌++◌, leb, if◌then◌else◌, length}

unfoldable pub add : ℕ → List ℕ → ℕ → Bool × List ℕ
add cap xs x = if leb cap (length xs) then (false, xs) else (true, xs ++ x ∷ [])

unfoldable pub remove : List ℕ → ℕ × List ℕ
remove [] = (0, [])
remove (x ∷ xs) = (x, xs)

unfoldable pub peek : List ℕ → ℕ
peek [] = 0
peek (x ∷ xs) = x

-- What a client can ask, and what it sees.
pub data Op : Type 0 where
  put : ℕ → Op
  get look : Op

pub data Reply : Type 0 where
  added : Bool → Reply
  value : ℕ → Reply

unfoldable pub run : ℕ → List ℕ → List Op → List Reply
unfolding add remove peek
run cap xs [] = []
run cap xs (put x ∷ ops) = let (b, ys) = add cap xs x in added b ∷ run cap ys ops
run cap xs (get ∷ ops) = let (x, ys) = remove xs in value x ∷ run cap ys ops
run cap xs (look ∷ ops) = value (peek xs) ∷ run cap xs ops
