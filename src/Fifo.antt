-- ===== src/Fifo.antt =====
-- The circular buffer of src/fifo.c and src/fifo.h. A `void *` is a number and NULL is 0. The
-- counters are C ints: they are plain numbers here, and `Fifo.Bounds` has their ranges.
pub mod Spec
pub mod Bounds
pub mod Refine
use lthread.Base.{
  ℕ, ◌+◌, ◌-◌, ◌*◌, ◌/◌, ◌^◌, Bool, true, false, Option, none, some, List, [], ◌∷◌, ltb, leb,
  if◌then◌else◌, get_or, set,
}

-- `queue_t`; `slots` is the C field `data`.
pub record Queue : Type 0 where
  pub size : ℕ
  pub next : ℕ
  pub capacity : ℕ
  pub slots : List ℕ

pub data Errno : Type 0 where
  einval enomem enobufs : Errno

pub data InitResult : Type 0 where
  queue : Queue → InitResult
  failed : Errno → InitResult

-- INT_MAX / sizeof(void*) on a 64-bit target
abbrev pub max_capacity : ℕ
max_capacity = (2 ^ 31 - 1) / 8

unfoldable pub at_capacity : Queue → Bool
at_capacity q = leb q.capacity q.size

fresh_queue : ℕ → Bool → Option (List ℕ) → InitResult
fresh_queue capacity false block = failed enomem
fresh_queue capacity true none = failed enomem
fresh_queue capacity true (some block) =
    queue (record { size = 0; next = 0; capacity = capacity; slots = block })

-- `header` tells whether the first allocation succeeds, and `block` is what the second returns.
unfoldable pub queue_init : ℕ → Bool → Option (List ℕ) → InitResult
unfolding fresh_queue
queue_init capacity header block =
    if ltb max_capacity capacity then failed einval else fresh_queue capacity header block

-- the index that `queue_add` writes
abbrev pub add_pos : Queue → ℕ
add_pos q = let pos = q.next + q.size in if leb q.capacity pos then pos - q.capacity else pos

-- `none` is the return value 0, `some e` the value -1 with errno `e`.
unfoldable pub queue_add : Queue → ℕ → Option Errno × Queue
unfolding at_capacity
queue_add q value =
    if at_capacity q
    then (some enobufs, q)
    else (none, record q { slots = set q.slots (add_pos q) value; size = q.size + 1 })

abbrev pub advance : Queue → ℕ
advance q = if leb q.capacity (q.next + 1) then q.next + 1 - q.capacity else q.next + 1

unfoldable pub queue_remove : Queue → ℕ × Queue
queue_remove q =
    if ltb 0 q.size
    then (get_or q.slots q.next 0, record q { next = advance q; size = q.size - 1 })
    else (0, q)

unfoldable pub queue_peek : Queue → ℕ
queue_peek q = if ltb 0 q.size then get_or q.slots q.next 0 else 0
