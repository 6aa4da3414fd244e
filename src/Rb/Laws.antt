-- ===== src/Rb/Laws.antt =====
-- Facts about entries in key order, and what they say of any tree that meets the interface.
use lthread.Base.{
  ℕ, ◌+◌, ◌≤◌, ◌<◌, ◌≡◌, refl, Bool-cases, Option-cases, inl, inr, none, some, [], ◌∷◌, ◌==◌, leb,
  if◌then◌else◌, arith, length,
}
use lthread.Rb.{Entries, insert_entry, find_entry, remove_entry, min_entry}

-- all keys lie above `k`, in order
abbrev pub Above : ℕ → Entries → Type 0
Above k [] = Unit {0}
Above k ((j, w) ∷ es) = (k < j) × Above j es

abbrev pub IsSorted : Entries → Type 0
IsSorted [] = Unit {0}
IsSorted ((j, w) ∷ es) = Above j es

Above-IsSorted : (k : ℕ) (es : Entries) → Above k es → IsSorted es
Above-IsSorted k [] a = tt
Above-IsSorted k ((j, w) ∷ es) a = a.1

Above-mono : (i k : ℕ) (es : Entries) → i ≤ k → Above k es → Above i es
Above-mono i k [] h a = tt
Above-mono i k ((j, w) ∷ es) h a = (omega arith, a.1)

find-Above : (i k : ℕ) (es : Entries) → i ≤ k → Above k es → find_entry i es ≡ none
unfolding find_entry
find-Above i k [] h a = refl
find-Above i k ((j, w) ∷ es) h a = ground (arith, find-Above i j es (omega arith) a.1)

-- An insertion that succeeds adds its key and changes no other.
pub find-insert :
    (k v j : ℕ) (es es' : Entries)
    → insert_entry k v es ≡ some es'
    → find_entry j es' ≡ (if k == j then some v else find_entry j es)
unfolding insert_entry find_entry
find-insert k v j [] es' e = ground arith
find-insert k v j ((i, w) ∷ es) es' e = elim (Option-cases (insert_entry k v es)) [
  | inl no_room ↦ ground arith
  | inr (rest, room) ↦ ground (arith, find-insert k v j es rest room)
]

-- An insertion fails only at a key that is there.
pub insert_entry-none :
    (k v : ℕ) (es : Entries) → insert_entry k v es ≡ none → (w : ℕ) × (find_entry k es ≡ some w)
unfolding insert_entry find_entry
insert_entry-none k v [] e = cc
insert_entry-none k v ((i, w) ∷ es) e = elim (Bool-cases (i == k)) [
  | inl hit ↦ (w, ground arith)
  | inr miss ↦ let (u, f) = insert_entry-none k v es (ground arith) in (u, ground arith)
]

insert_entry-Above :
    (k v i : ℕ) (es es' : Entries)
    → insert_entry k v es ≡ some es'
    → i < k
    → Above i es
    → Above i es'
unfolding insert_entry
insert_entry-Above k v i [] es' e h a = ground arith
insert_entry-Above k v i ((j, w) ∷ es) es' e h a = elim (Option-cases (insert_entry k v es)) [
  | inl no_room ↦ ground arith
  | inr (rest, room) ↦ ground (arith, insert_entry-Above k v j es rest room)
]

pub insert_entry-IsSorted :
    (k v : ℕ) (es es' : Entries) → insert_entry k v es ≡ some es' → IsSorted es → IsSorted es'
unfolding insert_entry
insert_entry-IsSorted k v [] es' e s = ground arith
insert_entry-IsSorted k v ((j, w) ∷ es) es' e s = elim (Option-cases (insert_entry k v es)) [
  | inl no_room ↦ ground arith
  | inr (rest, room) ↦ ground (arith, insert_entry-Above k v j es rest room)
]

-- A successful insertion found its key free.
pub insert_entry_free :
    (k v : ℕ) (es es' : Entries)
    → insert_entry k v es ≡ some es'
    → IsSorted es
    → find_entry k es ≡ none
unfolding insert_entry find_entry
insert_entry_free k v [] es' e s = refl
insert_entry_free k v ((j, w) ∷ es) es' e s = elim (Option-cases (insert_entry k v es)) [
  | inl no_room ↦ ground (arith, find-Above k j es)
  | inr (rest, room) ↦
      ground (arith, find-Above k j es, insert_entry_free k v es rest room (Above-IsSorted j es s))
]

pub find-remove :
    (k j : ℕ) (es : Entries)
    → IsSorted es
    → find_entry j (remove_entry k es) ≡ (if k == j then none else find_entry j es)
unfolding remove_entry find_entry
find-remove k j [] s = ground arith
find-remove k j ((i, w) ∷ es) s =
    ground (arith, find-Above j i es, find-remove k j es (Above-IsSorted i es s))

remove_entry-Above : (k i : ℕ) (es : Entries) → Above i es → Above i (remove_entry k es)
unfolding remove_entry
remove_entry-Above k i [] a = tt
remove_entry-Above k i ((j, w) ∷ es) a =
    ground (arith, remove_entry-Above k j es a.1, Above-mono i j es)

pub remove_entry-IsSorted : (k : ℕ) (es : Entries) → IsSorted es → IsSorted (remove_entry k es)
unfolding remove_entry
remove_entry-IsSorted k [] s = tt
remove_entry-IsSorted k ((j, w) ∷ es) s =
    ground (arith, remove_entry-Above k j es s, Above-IsSorted j es s)

pub min_entry-le :
    (es : Entries) (k v j w : ℕ)
    → IsSorted es
    → min_entry es ≡ some (k, v)
    → find_entry j es ≡ some w
    → k ≤ j
unfolding find_entry
min_entry-le [] k v j w s m f = cc
min_entry-le ((i, u) ∷ es) k v j w s m f = elim (Bool-cases (leb i j)) [
  | inl le ↦ ground arith
  | inr gt ↦ ground (arith, find-Above j i es)
]

pub min_entry-find :
    (es : Entries) (k v : ℕ) → min_entry es ≡ some (k, v) → find_entry k es ≡ some v
unfolding find_entry
min_entry-find [] k v m = cc
min_entry-find ((i, u) ∷ es) k v m = ground arith

-- the number of keys from `k` on
unfoldable pub count_from : ℕ → Entries → ℕ
count_from k [] = 0
count_from k ((j, w) ∷ es) = (if leb k j then 1 else 0) + count_from k es

pub count_from-le : (k : ℕ) (es : Entries) → count_from k es ≤ length es
unfolding count_from
count_from-le k [] = omega arith
count_from-le k ((j, w) ∷ es) = ground (arith, count_from-le k es)

pub count_from_mono : (k : ℕ) (es : Entries) → count_from (k + 1) es ≤ count_from k es
unfolding count_from
count_from_mono k [] = omega arith
count_from_mono k ((j, w) ∷ es) = ground (arith, count_from_mono k es)

pub count_from_step :
    (k w : ℕ) (es : Entries) → find_entry k es ≡ some w → count_from (k + 1) es < count_from k es
unfolding count_from find_entry
count_from_step k w [] f = cc
count_from_step k w ((j, u) ∷ es) f = ground (arith, count_from_step k w es, count_from_mono k es)

pub find-min_none : (es : Entries) (k : ℕ) → min_entry es ≡ none → find_entry k es ≡ none
unfolding find_entry
find-min_none [] k m = refl
find-min_none ((j, w) ∷ es) k m = cc

-- the number of keys up to `n`
unfoldable pub count_upto : ℕ → Entries → ℕ
count_upto n [] = 0
count_upto n ((j, w) ∷ es) = (if leb j n then 1 else 0) + count_upto n es

pub count_upto-remove_entry :
    (n k : ℕ) (es : Entries) → count_upto n (remove_entry k es) ≤ count_upto n es
unfolding count_upto remove_entry
count_upto-remove_entry n k [] = omega arith
count_upto-remove_entry n k ((j, w) ∷ es) = ground (arith, count_upto-remove_entry n k es)

pub count_upto_removed :
    (n k w : ℕ) (es : Entries)
    → find_entry k es ≡ some w
    → k ≤ n
    → count_upto n (remove_entry k es) < count_upto n es
unfolding count_upto remove_entry find_entry
count_upto_removed n k w [] f h = cc
count_upto_removed n k w ((j, u) ∷ es) f h = ground (arith, count_upto_removed n k w es)
