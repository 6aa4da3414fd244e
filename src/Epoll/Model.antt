-- ===== src/Epoll/Model.antt =====
-- An association of descriptors with events meets the interface of `Epoll`; the tests run on it.
use lthread.Base.{ℕ, true, Option, none, some, ◌≡◌, refl, ◌==◌, if◌then◌else◌, arith}
use lthread.Epoll.{EpollEvent, Epoll}

abbrev pub Watched : Type 0
Watched = ℕ → Option EpollEvent

unfoldable pub model_mod : ℕ → EpollEvent → Watched → Option Watched
model_mod fd ev s = elim (s fd) [
  | none ↦ none
  | some old ↦ some (λ d. if d == fd then some ev else s d)
]

unfoldable pub model_add : ℕ → EpollEvent → Watched → Option Watched
model_add fd ev s = elim (s fd) [
  | none ↦ some (λ d. if d == fd then some ev else s d)
  | some old ↦ none
]

unfoldable pub model_del : ℕ → EpollEvent → Watched → Option Watched
model_del fd ev s = elim (s fd) [
  | none ↦ none
  | some old ↦ some (λ d. if d == fd then none else s d)
]

pub model_mod-absent :
    (fd : ℕ) (ev : EpollEvent) (s : Watched) → s fd ≡ none → model_mod fd ev s ≡ none
unfolding model_mod
model_mod-absent fd ev s h = ground (arith, h)

pub model_mod-present :
    (fd : ℕ) (ev old : EpollEvent) (s : Watched)
    → s fd ≡ some old
    → model_mod fd ev s ≡ some (λ d. if d == fd then some ev else s d)
unfolding model_mod
model_mod-present fd ev old s h = ground (arith, h)

pub model_add-absent :
    (fd : ℕ) (ev : EpollEvent) (s : Watched)
    → s fd ≡ none
    → model_add fd ev s ≡ some (λ d. if d == fd then some ev else s d)
unfolding model_add
model_add-absent fd ev s h = ground (arith, h)

pub model_del-absent :
    (fd : ℕ) (ev : EpollEvent) (s : Watched) → s fd ≡ none → model_del fd ev s ≡ none
unfolding model_del
model_del-absent fd ev s h = ground (arith, h)

pub model_del-present :
    (fd : ℕ) (ev old : EpollEvent) (s : Watched)
    → s fd ≡ some old
    → model_del fd ev s ≡ some (λ d. if d == fd then none else s d)
unfolding model_del
model_del-present fd ev old s h = ground (arith, h)

instance abbrev pub watched : Epoll
watched = record {
  Set = Watched;
  interest = λ fd s. s fd;
  can_poll = λ fd s. true;
  ctl_mod = model_mod;
  ctl_add = model_add;
  ctl_del = model_del;
  ctl_mod-absent = model_mod-absent;
  ctl_mod-present = λ fd ev old s ok h. (
    (λ d. if d == fd then some ev else s d),
    model_mod-present fd ev old s h,
    (λ d. refl),
    λ d. refl,
  );
  ctl_add-absent = λ fd ev s ok h.
      ((λ d. if d == fd then some ev else s d), model_add-absent fd ev s h, (λ d. refl), λ d. refl);
  ctl_del-absent = model_del-absent;
  ctl_del-present = λ fd ev old s h. (
    (λ d. if d == fd then none else s d),
    model_del-present fd ev old s h,
    (λ d. refl),
    λ d. refl,
  );
}
