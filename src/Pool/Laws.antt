-- ===== src/Pool/Laws.antt =====
-- What a user of the memory pool of src/common/mem.c gets: blocks that no other user has.
use lthread.Base.{
  ℕ, zero, suc, ◌+◌, ◌%◌, ◌^◌, ◌<◌, ◌≡◌, refl, sym, ap, ◌∙◌, Bool, true, Option, none, some, List,
  [], ◌∷◌, length, remove, subst, arith,
}
use lthread.Pool.{
  MemPool, ptr_size, mem_obj_size, add_obj, mem_free, realloc_loop, mem_realloc_pool, first_item,
  mem_alloc, empty_pool, mem_init_pool,
}
use lthread.Pool.Valid.{
  times, Valid, first_item-Valid, mem_free-Valid, add_obj-Valid, times-remove, Valid-same,
  mem_free_head,
}

-- what is relied on of calloc while memory lasts: a block that is not allocated
abbrev pub Lasts : (ℕ → List ℕ → Option ℕ) → Type 0
Lasts calloc =
    (size : ℕ) (live : List ℕ) → (a : ℕ) × (calloc size live ≡ some a) × (times a live ≡ 0)

module _ (calloc : ℕ → List ℕ → Option ℕ) where
  realloc_loop-Valid :
      (n size : ℕ) (m : MemPool) (out : List ℕ)
      → Lasts calloc
      → Valid m out
      → (m' : MemPool) × (realloc_loop calloc n size m ≡ (true, m'))
        × Valid m' out
        × (length m'.objs ≡ length m.objs + n)
        × (m'.n ≡ m.n)
  unfolding realloc_loop
  realloc_loop-Valid zero size m out lasts v = (m, refl, v, omega arith, refl)
  realloc_loop-Valid (suc n) size m out lasts v =
      let (a, got_a, fresh_a) = lasts mem_obj_size m.live in
      let (b, got_b, fresh_b) = lasts (size + ptr_size) (a ∷ m.live) in
      let (m', run, v', count, same) =
        realloc_loop-Valid n size (add_obj a b m) out lasts
          (add_obj-Valid a b m out fresh_a fresh_b v) in
      (m', rw (realloc_loop, got_a, got_b) run, v', omega (arith, count), same)

  -- The states that the users of a pool of `n` objects reach while memory lasts; `out` has what they
  -- took and did not give back.
  pub data Reach (size n : ℕ) (live : List ℕ) : MemPool → List ℕ → Type 0 where
    made : (m : MemPool) → mem_init_pool calloc size n live ≡ (true, m) → Reach size n live m []
    took :
        (m m' : MemPool) (out : List ℕ) (x : ℕ)
        → Reach size n live m out
        → mem_alloc calloc m ≡ (some x, m')
        → Reach size n live m' (x ∷ out)
    gave :
        (m : MemPool) (out : List ℕ) (x : ℕ)
        → Reach size n live m out
        → 0 < times x out
        → Reach size n live (mem_free x m) (remove x out)

  -- what is given back is what is taken next
  mem_free_lem :
      (x : ℕ) (m : MemPool) (out : List ℕ)
      → 0 < times x out
      → Valid m out
      → mem_alloc calloc (mem_free x m) ≡ (some x, m)
  unfolding mem_alloc
  mem_free_lem x m out h v =
      ap (mem_alloc calloc) (mem_free_head x m (v.out_pos x h))
      ∙ ap (λ (y : ℕ). (some y, m)) (v.out_linked x h)

  abbrev Taken : MemPool → List ℕ → Option ℕ × MemPool → Type 0
  Taken m out r =
      (x : ℕ) × (m' : MemPool) × (r ≡ (some x, m'))
      × (times x out ≡ 0)
      × Valid m' (x ∷ out)
      × (m'.n ≡ m.n)

  first_item-Taken :
      (os : List ℕ) (m : MemPool) (out : List ℕ)
      → m.objs ≡ os
      → 0 < length os
      → Valid m out
      → Taken m out (first_item m.objs m)
  first_item-Taken [] m out e pos v = absurd (omega arith)
  first_item-Taken (o ∷ os) m out e pos v =
      let (new, v') = first_item-Valid o os m out e v in
      (m.obj o, record m { objs = os }, ap (λ l. first_item l m) e, new, v', refl)

  mem_alloc-Taken :
      (os : List ℕ) (m : MemPool) (out : List ℕ)
      → m.objs ≡ os
      → Lasts calloc
      → Valid m out
      → 0 < m.n
      → Taken m out (mem_alloc calloc m)
  unfolding mem_alloc mem_realloc_pool
  mem_alloc-Taken (o ∷ os) m out e lasts v pos =
      let (new, v') = first_item-Valid o os m out e v in
      (m.obj o, record m { objs = os }, rw (mem_alloc, e) refl, new, v', refl)
  mem_alloc-Taken [] m out e lasts v pos =
      let m1 = record m { total_n = (m.total_n + m.n) % 2 ^ 64 } in
      let v1 : Valid m1 out = record {
        objs_once = v.objs_once;
        out_once = v.out_once;
        apart = v.apart;
        objs_live = v.objs_live;
        objs_block = v.objs_block;
        objs_linked = v.objs_linked;
        objs_pos = v.objs_pos;
        out_pos = v.out_pos;
        out_live = v.out_live;
        out_owner = v.out_owner;
        out_linked = v.out_linked;
      } in
      let (m2, run, v2, count, same) = realloc_loop-Valid m.n m.obj_size m1 out lasts v1 in
      let (x, m3, got, new, v3, same') =
        first_item-Taken m2.objs m2 out refl (omega (arith, count)) v2 in
      (x, m3, rw (mem_alloc, e, mem_realloc_pool, run) got, new, v3, same' ∙ same)

  empty-Valid : (size n total : ℕ) (live : List ℕ) → Valid (empty_pool size n total live) []
  empty-Valid size n total live = record {
    objs_once = λ o. omega arith;
    out_once = λ x. omega arith;
    apart = λ x h. absurd (omega arith);
    objs_live = λ o h. absurd (omega arith);
    objs_block = λ o h. absurd (omega arith);
    objs_linked = λ o h. absurd (omega arith);
    objs_pos = λ o h. absurd (omega arith);
    out_pos = λ x h. absurd (omega arith);
    out_live = λ x h. absurd (omega arith);
    out_owner = λ x h. absurd (omega arith);
    out_linked = λ x h. absurd (omega arith);
  }

  Reach-Valid :
      (size n : ℕ) (live : List ℕ) (m : MemPool) (out : List ℕ)
      → Lasts calloc
      → 0 < n
      → Reach size n live m out
      → Valid m out × (m.n ≡ n)
  unfolding mem_init_pool mem_realloc_pool
  Reach-Valid size n live m _ lasts pos (made _ e) =
      let (m', run, v, count, same) =
        realloc_loop-Valid n size (empty_pool size n ((n + n) % 2 ^ 64) live) [] lasts
          (empty-Valid size n ((n + n) % 2 ^ 64) live) in
      let eq : m' ≡ m = ap (λ (r : Bool × MemPool). r.1) (sym run ∙ e) in
      (subst (λ p. Valid p []) eq v, ap (λ (p : MemPool). p.n) (sym eq) ∙ same)
  Reach-Valid size n live m _ lasts pos (took m0 _ out x r e) =
      let (v, same) = Reach-Valid size n live m0 out lasts pos r in
      let (x', m', got, new, v', same') =
        mem_alloc-Taken m0.objs m0 out refl lasts v (subst (λ k. 0 < k) (sym same) pos) in
      let both = sym got ∙ e in
      let eq_m : m' ≡ m = ap (λ (p : Option ℕ × MemPool). p.1) both in
      let eq_x : x' ≡ x =
        ap (λ (p : Option ℕ × MemPool). elim p.0 [ none ↦ 0 | some y ↦ y ]) both in
      (
        subst (λ p. Valid p (x ∷ out)) eq_m (subst (λ y. Valid m' (y ∷ out)) eq_x v'),
        ap (λ (p : MemPool). p.n) (sym eq_m) ∙ same' ∙ same,
      )
  Reach-Valid size n live _ _ lasts pos (gave m0 out x r h) =
      let (v, same) = Reach-Valid size n live m0 out lasts pos r in
      (
        mem_free-Valid x m0 (remove x out)
            (Valid-same m0 out (x ∷ remove x out) (λ y. times-remove x y out h) v),
        ap (λ (p : MemPool). p.n) (mem_free_head x m0 (v.out_pos x h)) ∙ same,
      )

  -- In every state that the users of a memory pool of one or more objects reach, from mem_init_pool
  -- on, by taking blocks with mem_alloc and giving taken ones back with MEM_FREE, while calloc
  -- yields blocks that are not allocated: mem_alloc yields a block that no user has, and once that
  -- is given back the next mem_alloc yields it again and leaves the pool the same.
  pub mem_alloc-own :
      (size n : ℕ) (live : List ℕ) (m : MemPool) (out : List ℕ)
      → Lasts calloc
      → 0 < n
      → Reach size n live m out
      → (x : ℕ) × (m' : MemPool) × (mem_alloc calloc m ≡ (some x, m'))
        × (times x out ≡ 0)
        × (mem_alloc calloc (mem_free x m') ≡ (some x, m'))
  mem_alloc-own size n live m out lasts pos r =
      let (v, same) = Reach-Valid size n live m out lasts pos r in
      let (x, m', got, new, v', same') =
        mem_alloc-Taken m.objs m out refl lasts v (subst (λ k. 0 < k) (sym same) pos) in
      (x, m', got, new, mem_free_lem x m' (x ∷ out) (ground arith) v')
