-- ===== src/Pool.antt =====
-- The memory pool of src/common/mem.c and src/common/mem.h.
pub mod Valid
pub mod Laws
use lthread.Base.{
  ℕ, zero, suc, ◌+◌, ◌-◌, ◌%◌, ◌^◌, Bool, true, false, Option, none, some, List, [], ◌∷◌, ◌==◌,
  if◌then◌else◌, remove, update,
}

-- A `struct mem_pool` and the memory that it uses. `objs` is the list `l`, by the addresses of the
-- `struct mem_obj`; `obj` is the field of that name of each; `header` is the word at each address
-- that holds a pointer to a `mem_obj`, in front of what a user gets; `live` has the addresses of the
-- blocks that are allocated.
pub record MemPool : Type 0 where
  pub objs : List ℕ
  pub obj_size : ℕ
  pub n : ℕ
  pub total_n : ℕ
  pub obj : ℕ → ℕ
  pub header : ℕ → ℕ
  pub live : List ℕ

-- sizeof (void *), and sizeof (struct mem_obj)
abbrev pub ptr_size : ℕ
ptr_size = 8

abbrev pub mem_obj_size : ℕ
mem_obj_size = 32

-- what the loop of `mem_free_pool` frees
abbrev pub free_objs : List ℕ → (ℕ → ℕ) → List ℕ → List ℕ
free_objs [] obj live = live
free_objs (o ∷ os) obj live = free_objs os obj (remove o (remove (obj o - ptr_size) live))

unfoldable pub mem_free_pool : MemPool → MemPool
mem_free_pool m = record m { objs = []; live = free_objs m.objs m.obj m.live }

-- one round of the loop of `mem_realloc_pool`, once both blocks are there
abbrev pub add_obj : ℕ → ℕ → MemPool → MemPool
add_obj o b m = record m {
  live = b ∷ o ∷ m.live;
  header = update m.header b o;
  obj = update m.obj o (b + ptr_size);
  objs = o ∷ m.objs;
}

-- MEM_FREE: the object goes to the head of the list; NULL is left alone.
unfoldable pub mem_free : ℕ → MemPool → MemPool
mem_free x m = if x == 0 then m else record m { objs = m.header (x - ptr_size) ∷ m.objs }

-- None is the return value NULL.
abbrev pub first_item : List ℕ → MemPool → Option ℕ × MemPool
first_item [] m = (none, m)
first_item (o ∷ os) m = (some (m.obj o), record m { objs = os })

-- a pool with no objects
abbrev pub empty_pool : ℕ → ℕ → ℕ → List ℕ → MemPool
empty_pool size n total live = record {
  objs = [];
  obj_size = size;
  n = n;
  total_n = total;
  obj = λ o. 0;
  header = λ b. 0;
  live = live;
}

-- `calloc size live` is the block that calloc yields, or none for NULL.
module _ (calloc : ℕ → List ℕ → Option ℕ) where
  -- False is the return value -1.
  unfoldable pub realloc_loop : ℕ → ℕ → MemPool → Bool × MemPool
  unfolding mem_free_pool
  realloc_loop zero size m = (true, m)
  realloc_loop (suc n) size m = elim (calloc mem_obj_size m.live) [
    | none ↦ (false, mem_free_pool m)
    | some o ↦ elim (calloc (size + ptr_size) (o ∷ m.live)) [
      | none ↦ (false, mem_free_pool (record m { live = o ∷ m.live }))
      | some b ↦ realloc_loop n size (add_obj o b m)
    ]
  ]

  unfoldable pub mem_realloc_pool : ℕ → ℕ → MemPool → Bool × MemPool
  unfolding realloc_loop
  mem_realloc_pool size n m = realloc_loop n size (record m { total_n = (m.total_n + n) % 2 ^ 64 })

  abbrev refilled : Bool × MemPool → Option ℕ × MemPool
  refilled (true, m) = first_item m.objs m
  refilled (false, m) = (none, m)

  unfoldable pub mem_alloc : MemPool → Option ℕ × MemPool
  unfolding mem_realloc_pool
  mem_alloc m = elim m.objs [
    | [] ↦ refilled (mem_realloc_pool m.obj_size m.n m)
    | o ∷ os ↦ first_item (o ∷ os) m
  ]

  -- `mem_init_pool` once the pool itself is allocated
  unfoldable pub mem_init_pool : ℕ → ℕ → List ℕ → Bool × MemPool
  unfolding mem_realloc_pool
  mem_init_pool size n live = mem_realloc_pool size n (empty_pool size n n live)
