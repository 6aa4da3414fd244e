-- ===== src/Stack.antt =====
-- The stack of a lightweight thread in src/lthread.c: its size from sched_create, and the pages that
-- `_lthread_madvise` gives back.
pub mod Mask
pub mod Drop
use Prim.Native.Nat.{bit_and}
use lthread.Base.{
  ℕ, ◌+◌, ◌-◌, ◌*◌, ◌/◌, ◌%◌, ◌^◌, ◌==◌, ltb, leb, Bool, ◌&&◌, if◌then◌else◌, Option, none, some,
}

-- The fields of `struct lthread`, its context and its scheduler that `_lthread_madvise` uses.
pub record Stack : Type 0 where
  pub stack : ℕ
  pub stack_size : ℕ
  pub last_stack_size : ℕ
  pub esp : ℕ
  pub page_size : ℕ

abbrev pub size_t : ℕ
size_t = 2 ^ 64

-- subtraction on size_t
unfoldable pub sub : ℕ → ℕ → ℕ
sub a b = (a + size_t - b) % size_t

unfoldable pub current_stack : Stack → ℕ
unfolding sub
current_stack t = sub ((t.stack + t.stack_size) % size_t) t.esp

unfoldable pub round_up : ℕ → ℕ → ℕ
unfolding sub
round_up current page_size = (current + bit_and (sub 0 current) (sub page_size 1)) % size_t

-- The stack afterwards and the range that is given back, when there is one; none where an assertion
-- fails. `madvise p len` is what the system call answers.
unfoldable pub lthread_madvise : (ℕ → ℕ → ℕ) → Stack → Option (Stack × Option (ℕ × ℕ))
unfolding sub current_stack round_up
lthread_madvise madvise t =
    let current = current_stack t in
    let t' = record t { last_stack_size = current } in
    if leb current t.stack_size
    then (if ltb current t.last_stack_size && ltb t.page_size t.last_stack_size
        then (let len = sub t.stack_size (round_up current t.page_size) in
            if madvise t.stack len == 0 then some (t', some (t.stack, len)) else none)
        else some (t', none))
    else none

-- the whole pages below the stack pointer, in bytes
abbrev pub whole_pages : Stack → ℕ
whole_pages t = (t.esp - t.stack) / t.page_size * t.page_size
