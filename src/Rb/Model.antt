-- ===== src/Rb/Model.antt =====
-- Sorted lists meet the interface of `Rb`; the tests run on them.
use mathlib.Core.Option
use lthread.Base.{◌≡◌, refl, none, some, [], Option}
use lthread.Rb.{Entries, RbTree, insert_entry, find_entry, remove_entry, min_entry}

pub map_id : (o : Option Entries) → Option.map (λ (e : Entries). e) o ≡ o
map_id none = refl
map_id (some e) = refl

instance abbrev pub sorted_list : RbTree
sorted_list = record {
  Tree = Entries;
  init = [];
  insert = insert_entry;
  find = find_entry;
  remove = remove_entry;
  min? = min_entry;
  entries = λ t. t;
  entries-init = refl;
  entries-insert = λ k v t. map_id (insert_entry k v t);
  entries-remove = λ k t. refl;
  find_lem = λ k t. refl;
  min?_lem = λ t. refl;
}
