-- ===== src/Tests/Stack.antt =====
-- The stack that is given back at concrete sizes.
use lthread.Base.{ℕ, ◌≡◌, ◌≤◌, ◌<◌, ◌%◌, refl, arith, none, some, ltb, if◌then◌else◌}
use lthread.Stack.{Stack, current_stack, round_up, sub, lthread_madvise}
use lthread.Stack.Drop.{madvise_safe}

-- A stack of 32 pages that was used for four pages, and now for 5000 bytes.
abbrev shrunk : Stack
shrunk = record {
  stack = 1048576;
  stack_size = 131072;
  last_stack_size = 16384;
  esp = 1174648;
  page_size = 4096;
}

-- a kernel that gives back at most 32 pages
abbrev give_back : ℕ → ℕ → ℕ
give_back p len = if ltb 131072 len then 1 else 0

madvise_safe_example :
    (lthread_madvise give_back shrunk
      ≡ some (record shrunk { last_stack_size = 5000 }, some (1048576, 122880)))
    × (1171456 ≤ 1174648)
    × (1174648 < 1175552)
    × (122880 % 4096 ≡ 0)
madvise_safe_example =
    madvise_safe give_back 12 32 shrunk (omega arith) refl refl (omega arith) (omega arith)
      (omega arith) (λ len h. ground arith)

-- With a size of 9000 bytes the range is no whole number of pages: it ends at byte 4904 of the stack,
-- inside the second page, which madvise drops as a whole, with the live bytes from 6000 on.
abbrev ragged : Stack
ragged = record {
  stack = 1048576;
  stack_size = 9000;
  last_stack_size = 8500;
  esp = 1054576;
  page_size = 4096;
}

ragged_live :
    lthread_madvise give_back ragged
    ≡ some (record ragged { last_stack_size = 3000 }, some (1048576, 4904))
unfolding lthread_madvise current_stack round_up sub
ragged_live = refl

-- With a size of 5000 bytes the rounding exceeds the stack, and the length wraps.
ragged_fails :
    lthread_madvise give_back
      (record ragged { stack_size = 5000; last_stack_size = 5000; esp = 1049076 })
    ≡ none
unfolding lthread_madvise current_stack round_up sub
ragged_fails = refl
