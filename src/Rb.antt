-- ===== src/Rb.antt =====
-- What the scheduler relies on of the red-black trees of src/tree.h (RB_INSERT, RB_FIND, RB_MIN,
-- RB_REMOVE and RB_EMPTY of a tree with distinct keys), a copy of the BSD header: an interface,
-- whose laws say what each macro does to the entries in key order.
pub mod Model
pub mod Laws
pub mod Tree
use mathlib.Core.Option
use lthread.Base.{
  ℕ, ◌≡◌, Bool, true, false, Option, none, some, List, [], ◌∷◌, ◌==◌, ltb, if◌then◌else◌,
}

-- keys with the threads that stand under them, in key order
abbrev pub Entries : Type 0
Entries = List (ℕ × ℕ)

-- `none` when the key is taken: RB_INSERT then returns the element in its way.
unfoldable pub insert_entry : ℕ → ℕ → Entries → Option Entries
insert_entry k v [] = some ((k, v) ∷ [])
insert_entry k v ((j, w) ∷ es) =
    if j == k
    then none
    else if ltb k j
    then some ((k, v) ∷ (j, w) ∷ es)
    else Option.map (◌∷◌ (j, w)) (insert_entry k v es)

unfoldable pub find_entry : ℕ → Entries → Option ℕ
find_entry k [] = none
find_entry k ((j, w) ∷ es) = if j == k then some w else find_entry k es

unfoldable pub remove_entry : ℕ → Entries → Entries
remove_entry k [] = []
remove_entry k ((j, w) ∷ es) = if j == k then es else (j, w) ∷ remove_entry k es

abbrev pub min_entry : Entries → Option (ℕ × ℕ)
min_entry [] = none
min_entry (e ∷ es) = some e

abbrev pub is_empty : Entries → Bool
is_empty [] = true
is_empty (e ∷ es) = false

pub record RbTree : Type 1 where
  pub Tree : Type 0
  pub init : Tree
  pub insert : ℕ → ℕ → Tree → Option Tree
  pub find : ℕ → Tree → Option ℕ
  pub remove : ℕ → Tree → Tree
  pub min? : Tree → Option (ℕ × ℕ)
  pub entries : Tree → Entries
  pub entries-init : entries init ≡ []
  pub entries-insert :
      (k v : ℕ) (t : Tree) → Option.map entries (insert k v t) ≡ insert_entry k v (entries t)
  pub entries-remove : (k : ℕ) (t : Tree) → entries (remove k t) ≡ remove_entry k (entries t)
  pub find_lem : (k : ℕ) (t : Tree) → find k t ≡ find_entry k (entries t)
  pub min?_lem : (t : Tree) → min? t ≡ min_entry (entries t)
