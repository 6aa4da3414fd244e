-- ===== src/Rb/Tree.antt =====
-- The laws of `Rb.Laws`, for any tree that meets the interface.
use mathlib.Core.Option
use lthread.Base.{ℕ, ◌+◌, ◌≤◌, ◌<◌, ◌≡◌, ap, sym, ◌∙◌, none, some, ◌==◌, if◌then◌else◌}
use lthread.Rb.{RbTree, insert_entry}
use lthread.Rb.Laws.{
  IsSorted, find-insert, insert_entry-none, insert_entry-IsSorted, insert_entry_free, find-remove,
  remove_entry-IsSorted, min_entry-le, min_entry-find, find-min_none, count_from, count_from_step,
  count_upto, count_upto-remove_entry, count_upto_removed,
}

module _ ⦃T : RbTree⦄ (t : T.Tree) where
  abbrev pub Sorted : Type 0
  Sorted = IsSorted (T.entries t)

  module _ (k v : ℕ) {t' : T.Tree} (e : T.insert k v t ≡ some t') where
    inserted : insert_entry k v (T.entries t) ≡ some (T.entries t')
    inserted = sym (T.entries-insert k v t) ∙ ap (Option.map T.entries) e

    pub find-insert_tree : (j : ℕ) → T.find j t' ≡ (if k == j then some v else T.find j t)
    find-insert_tree j =
        rw (T.find_lem, T.find_lem) (find-insert k v j (T.entries t) (T.entries t') inserted)

    pub insert-Sorted : Sorted → IsSorted (T.entries t')
    insert-Sorted = insert_entry-IsSorted k v (T.entries t) (T.entries t') inserted

    pub insert_free : Sorted → T.find k t ≡ none
    insert_free s = T.find_lem k t ∙ insert_entry_free k v (T.entries t) (T.entries t') inserted s

  pub insert_none : (k v : ℕ) → T.insert k v t ≡ none → (w : ℕ) × (T.find k t ≡ some w)
  insert_none k v e =
      let (w, f) =
        insert_entry-none k v (T.entries t)
          (sym (T.entries-insert k v t) ∙ ap (Option.map T.entries) e) in
      (w, T.find_lem k t ∙ f)

  pub find-remove_tree :
      (k j : ℕ) → Sorted → T.find j (T.remove k t) ≡ (if k == j then none else T.find j t)
  find-remove_tree k j s =
      rw (T.find_lem, T.find_lem, T.entries-remove) (find-remove k j (T.entries t) s)

  pub remove-Sorted : (k : ℕ) → Sorted → IsSorted (T.entries (T.remove k t))
  remove-Sorted k s = rw T.entries-remove (remove_entry-IsSorted k (T.entries t) s)

  pub min?-le : (k v j w : ℕ) → Sorted → T.min? t ≡ some (k, v) → T.find j t ≡ some w → k ≤ j
  min?-le k v j w s m f =
      min_entry-le (T.entries t) k v j w s (sym (T.min?_lem t) ∙ m) (sym (T.find_lem j t) ∙ f)

  pub min?-find : (k v : ℕ) → T.min? t ≡ some (k, v) → T.find k t ≡ some v
  min?-find k v m = T.find_lem k t ∙ min_entry-find (T.entries t) k v (sym (T.min?_lem t) ∙ m)

  pub insert_none-count :
      (k v : ℕ)
      → T.insert k v t ≡ none
      → count_from (k + 1) (T.entries t) < count_from k (T.entries t)
  insert_none-count k v e =
      let (w, f) = insert_none k v e in count_from_step k w (T.entries t) (sym (T.find_lem k t) ∙ f)

  pub min?_none : T.min? t ≡ none → (k : ℕ) → T.find k t ≡ none
  min?_none m k = T.find_lem k t ∙ find-min_none (T.entries t) k (sym (T.min?_lem t) ∙ m)

  -- how many keys of the tree are at most `n`
  abbrev pub overdue : ℕ → ℕ
  overdue n = count_upto n (T.entries t)

  pub remove-overdue : (n k : ℕ) → count_upto n (T.entries (T.remove k t)) ≤ overdue n
  remove-overdue n k = rw T.entries-remove (count_upto-remove_entry n k (T.entries t))

  pub remove_found-overdue :
      (n k w : ℕ)
      → T.find k t ≡ some w
      → k ≤ n
      → count_upto n (T.entries (T.remove k t)) < overdue n
  remove_found-overdue n k w f h =
      rw T.entries-remove (count_upto_removed n k w (T.entries t) (sym (T.find_lem k t) ∙ f) h)
