-- ===== src/Tests/Pool.antt =====
-- A memory pool over an allocator that takes the first block above all others.
use lthread.Base.{ℕ, ◌+◌, ◌<◌, ◌≤◌, ◌≡◌, refl, arith, Option, some, List, [], ◌∷◌}
use lthread.Pool.{MemPool, mem_alloc, mem_free, mem_init_pool, realloc_loop, mem_realloc_pool}
use lthread.Pool.Valid.{times}
use lthread.Pool.Laws.{Lasts, made, mem_alloc-own}

abbrev above : List ℕ → ℕ
above [] = 4096
above (a ∷ live) = let rest = above live in a + rest

above_pos : (live : List ℕ) → 0 < above live
above_pos [] = omega arith
above_pos (a ∷ live) = omega (arith, above_pos live)

above_all : (k : ℕ) (live : List ℕ) → above live ≤ k → times k live ≡ 0
above_all k [] h = refl
above_all k (a ∷ live) h = ground (arith, above_pos live, above_all k live)

abbrev bump : ℕ → List ℕ → Option ℕ
bump size live = some (above live)

bump-Lasts : Lasts bump
bump-Lasts size live = (above live, refl, above_all (above live) live (omega arith))

abbrev fresh_pool : MemPool
fresh_pool = (mem_init_pool bump 16 2 []).1

mem_alloc-own_example :
    (x : ℕ) × (m' : MemPool) × (mem_alloc bump fresh_pool ≡ (some x, m'))
    × (times x [] ≡ 0)
    × (mem_alloc bump (mem_free x m') ≡ (some x, m'))
unfolding mem_init_pool mem_realloc_pool realloc_loop
mem_alloc-own_example =
    mem_alloc-own bump 16 2 [] fresh_pool [] bump-Lasts (omega arith) (made fresh_pool refl)

-- The pool of two objects counts four.
total_n_twice : fresh_pool.total_n ≡ 4
unfolding mem_init_pool mem_realloc_pool realloc_loop
total_n_twice = refl
