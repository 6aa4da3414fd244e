-- ===== src/Chan/State.antt =====
-- The data of src/chan.c: channels, selectors and their wait entries.
use lthread.Base.{ℕ, Bool, Option, List, [], ◌∷◌, ◌==◌, ◌&&◌, if◌then◌else◌, get_or, set, update}
use lthread.Rb.{RbTree}
use lthread.Fifo.{Queue}
use lthread.Sched.State.{Sched}

-- A `chan_wait` is one of the entries of a selector: the selector's address and the index.
pub record Wait : Type 0 where
  pub sel : ℕ
  pub idx : ℕ

-- `struct lthread_chan`; an unbuffered channel has no queue.
pub record Chan : Type 0 where
  pub queue : Option Queue
  pub closed : Bool
  pub send_count : ℕ
  pub sendq : List Wait
  pub recv_count : ℕ
  pub recvq : List Wait

-- `struct lthread_sel`: its array `waits` has LTHR_SEL_CHANS entries, which are the `Wait`s with its
-- address and an index below that; `cond` is the address of its condition variable, `chans` and `msgs` are the
-- arrays that its pointers lead to, and `target` is none for -1.
pub record Sel : Type 0 where
  pub cond : ℕ
  pub chans : List ℕ
  pub msgs : List ℕ
  pub wchan_count : ℕ
  pub rchan_count : ℕ
  pub target : Option ℕ

unfoldable pub same_wait : Wait → Wait → Bool
same_wait a b = a.sel == b.sel && a.idx == b.idx

-- TAILQ_REMOVE of an entry that stands in the queue once
unfoldable pub remove_wait : Wait → List Wait → List Wait
unfolding same_wait
remove_wait x [] = []
remove_wait x (y ∷ ys) = if same_wait y x then ys else y ∷ remove_wait x ys

module _ ⦃T : RbTree⦄ where
  -- the memory that the functions of chan.c work on
  pub record World : Type 0 where
    pub sched : Sched
    pub chan : ℕ → Chan
    pub sel : ℕ → Sel

  abbrev pub set_chan : ℕ → Chan → World → World
  set_chan c ch w = record w { chan = update w.chan c ch }

  abbrev pub set_sel : ℕ → Sel → World → World
  set_sel s sl w = record w { sel = update w.sel s sl }

  abbrev pub set_target : ℕ → Option ℕ → World → World
  set_target s t w = set_sel s (record (w.sel s) { target = t }) w

  abbrev pub set_msg : ℕ → ℕ → ℕ → World → World
  set_msg s i v w = set_sel s (record (w.sel s) { msgs = set (w.sel s).msgs i v }) w

  -- sel->msgs[i]; a read out of bounds is no case of the source, and is 0 here.
  abbrev pub msg : ℕ → ℕ → World → ℕ
  msg s i w = get_or (w.sel s).msgs i 0

  abbrev pub chan_at : ℕ → ℕ → World → ℕ
  chan_at s i w = get_or (w.sel s).chans i 0
