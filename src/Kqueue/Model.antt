-- ===== src/Kqueue/Model.antt =====
-- A function from descriptors and filters meets the interface of `Kqueue`; the tests run on it.
use lthread.Base.{ℕ, true, Option, none, some, ◌≡◌, refl, ◌==◌, ◌&&◌, if◌then◌else◌, arith}
use lthread.Kqueue.{Filter, same_filter, Flags, ev_add, ev_delete, Change, Kevent}

abbrev pub Watched : Type 0
Watched = ℕ → Filter → Option ℕ

abbrev set_entry : ℕ → Filter → Option ℕ → Watched → Watched
set_entry fd f o s d g = if d == fd && same_filter g f then o else s d g

abbrev with_flags : Flags → ℕ → Filter → ℕ → Watched → Option Watched
with_flags ev_add fd f p s = some (set_entry fd f (some p) s)
with_flags ev_delete fd f p s = elim (s fd f) [
  | none ↦ none
  | some q ↦ some (set_entry fd f none s)
]

unfoldable pub model_change : Change → Watched → Option Watched
model_change c s = with_flags c.flags c.ident c.filter c.udata s

pub delete_absent :
    (fd : ℕ) (f : Filter) (p : ℕ) (s : Watched)
    → s fd f ≡ none
    → model_change (record { ident = fd; filter = f; flags = ev_delete; udata = p }) s ≡ none
unfolding model_change
delete_absent fd f p s e = ground (arith, e)

pub model_change-add :
    (fd : ℕ) (f : Filter) (p : ℕ) (s : Watched)
    → model_change (record { ident = fd; filter = f; flags = ev_add; udata = p }) s
      ≡ some (λ d g. if d == fd && same_filter g f then some p else s d g)
unfolding model_change
model_change-add fd f p s = refl

-- every descriptor is supported
instance abbrev pub model : Kevent
model = record {
  Set = Watched;
  watched = λ d g s. s d g;
  can_watch = λ d g s. true;
  change = model_change;
  change-add = λ fd f p s ok. (
    (λ d g. if d == fd && same_filter g f then some p else s d g),
    model_change-add fd f p s,
    (λ d g. refl),
    λ d g. refl,
  );
  change-delete_absent = delete_absent;
}
