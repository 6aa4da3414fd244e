-- ===== src/Fifo/Bounds.antt =====
-- The representation invariant of `queue_t`.
use lthread.Base.{ℕ, ◌+◌, ◌^◌, ◌≤◌, ◌<◌, ◌≡◌, Bool, some, List, arith, length, length-set}
use lthread.Fifo.{Queue, queue, max_capacity, add_pos, advance, queue_init, queue_add, queue_remove}

-- `next` stays an index of the storage, also while the queue is empty.
pub record IsValid (q : Queue) : Type 0 where
  pub storage : q.capacity ≤ length q.slots
  pub small : q.capacity ≤ max_capacity
  pub next_in : q.next < q.capacity
  pub size_in : q.size ≤ q.capacity

-- A queue that queue_init returns for a capacity that is not 0, on a block of at least that many
-- slots, is valid and empty, and has that capacity.
pub queue_init-IsValid :
    (capacity : ℕ) (header : Bool) (block : List ℕ) {q : Queue}
    → 0 < capacity
    → capacity ≤ length block
    → queue_init capacity header (some block) ≡ queue q
    → IsValid q × (q.size ≡ 0) × (q.capacity ≡ capacity)
unfolding queue_init
queue_init-IsValid capacity header block p h e = ground arith

pub queue_add-IsValid : (q : Queue) (x : ℕ) → IsValid q → IsValid (queue_add q x).1
unfolding queue_add
queue_add-IsValid q x v = ground (arith, length-set q.slots (add_pos q) x)

pub queue_remove-IsValid : (q : Queue) → IsValid q → IsValid (queue_remove q).1
unfolding queue_remove
queue_remove-IsValid q v = ground arith

-- In a valid queue no int addition of queue_add or queue_remove overflows, both write and read
-- inside the storage, and the next index stays below the capacity.
pub no_overflow :
    (q : Queue)
    → IsValid q
    → (q.next + q.size < 2 ^ 31)
      × (q.size + 1 < 2 ^ 31)
      × (q.next + 1 < 2 ^ 31)
      × (add_pos q < length q.slots)
      × (q.next < length q.slots)
      × (advance q < q.capacity)
no_overflow q v = ground arith

pub capacity-queue_add : (q : Queue) (x : ℕ) → (queue_add q x).1.capacity ≡ q.capacity
unfolding queue_add
capacity-queue_add q x = ground arith

pub capacity-queue_remove : (q : Queue) → (queue_remove q).1.capacity ≡ q.capacity
unfolding queue_remove
capacity-queue_remove q = ground arith
