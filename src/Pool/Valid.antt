-- ===== src/Pool/Valid.antt =====
-- What holds of the memory pool of src/common/mem.c and the blocks of its users, and is kept by its
-- steps.
use lthread.Base.{
  ℕ, suc, ◌-◌, ◌≤◌, ◌<◌, ◌≡◌, ◌≢◌, sym, ap, List, [], ◌∷◌, ◌==◌, if◌then◌else◌, remove, subst,
  arith,
}
use lthread.Pool.{MemPool, add_obj, mem_free}

-- how often a number stands in a list
abbrev pub times : ℕ → List ℕ → ℕ
times x [] = 0
times x (y ∷ ys) = let rest = times x ys in if y == x then suc rest else rest

-- The pool and the blocks `out` that its users have: each object of the list and each block of a user
-- is there once, a user's block is not in the list, and an object and its block lead to each other.
pub record Valid (m : MemPool) (out : List ℕ) : Type 0 where
  pub objs_once : (o : ℕ) → times o m.objs ≤ 1
  pub out_once : (x : ℕ) → times x out ≤ 1
  pub apart : (x : ℕ) → 0 < times x out → times (m.header (x - 8)) m.objs ≡ 0
  pub objs_live : (o : ℕ) → 0 < times o m.objs → 0 < times o m.live
  pub objs_block : (o : ℕ) → 0 < times o m.objs → 0 < times (m.obj o - 8) m.live
  pub objs_linked : (o : ℕ) → 0 < times o m.objs → m.header (m.obj o - 8) ≡ o
  pub objs_pos : (o : ℕ) → 0 < times o m.objs → 0 < m.obj o
  pub out_pos : (x : ℕ) → 0 < times x out → 0 < x
  pub out_live : (x : ℕ) → 0 < times x out → 0 < times (x - 8) m.live
  pub out_owner : (x : ℕ) → 0 < times x out → 0 < times (m.header (x - 8)) m.live
  pub out_linked : (x : ℕ) → 0 < times x out → m.obj (m.header (x - 8)) ≡ x

pub first_item-Valid :
    (o : ℕ) (os : List ℕ) (m : MemPool) (out : List ℕ)
    → m.objs ≡ o ∷ os
    → Valid m out
    → (times (m.obj o) out ≡ 0) × Valid (record m { objs = os }) (m.obj o ∷ out)
first_item-Valid o os m out e v =
    let sub = λ (x : ℕ). ap (times x) e in
    let here : 0 < times o m.objs = rw (e) (ground arith) in
    let only : times o os ≡ 0 = ground (arith, v.objs_once o, sub o) in
    let linked = v.objs_linked o here in
    let new : times (m.obj o) out ≡ 0 = ground (arith, v.apart (m.obj o), linked, here) in
    (
      new,
      record {
        objs_once = λ x. ground (arith, v.objs_once x, sub x);
        out_once = λ x. ground (arith, v.out_once x, new);
        apart = λ x h. ground (arith, v.apart x, linked, only, sub (m.header (x - 8)), here);
        objs_live = λ x h. v.objs_live x (ground (arith, sub x, h));
        objs_block = λ x h. v.objs_block x (ground (arith, sub x, h));
        objs_linked = λ x h. v.objs_linked x (ground (arith, sub x, h));
        objs_pos = λ x h. v.objs_pos x (ground (arith, sub x, h));
        out_pos = λ x h. ground (arith, v.out_pos x, v.objs_pos o here, h);
        out_live = λ x h. ground (arith, v.out_live x, v.objs_block o here, h);
        out_owner = λ x h. ground (arith, v.out_owner x, v.objs_live o here, linked, h);
        out_linked = λ x h. ground (arith, v.out_linked x, linked, h);
      },
    )

-- a block that goes back to the list
abbrev pub put_back : ℕ → MemPool → MemPool
put_back x m = record m { objs = m.header (x - 8) ∷ m.objs }

pub mem_free_head : (x : ℕ) (m : MemPool) → 0 < x → mem_free x m ≡ put_back x m
unfolding mem_free
mem_free_head x m pos = ground arith

put_back-Valid : (x : ℕ) (m : MemPool) (out : List ℕ) → Valid m (x ∷ out) → Valid (put_back x m) out
put_back-Valid x m out v =
    let o = m.header (x - 8) in
    let mine : 0 < times x (x ∷ out) = ground arith in
    let gone = v.apart x mine in
    let linked = v.out_linked x mine in
    let last : times x out ≡ 0 = ground (arith, v.out_once x) in
    record {
      objs_once = λ y. ground (arith, v.objs_once y, gone);
      out_once = λ y. ground (arith, v.out_once y);
      apart = λ y h. ground (arith, v.apart y, linked, last, v.out_linked y, h);
      objs_live = λ y h. ground (arith, v.objs_live y, v.out_owner x mine, h);
      objs_block = λ y h. ground (arith, v.objs_block y, v.out_live x mine, linked, h);
      objs_linked = λ y h. ground (arith, v.objs_linked y, linked, h);
      objs_pos = λ y h. ground (arith, v.objs_pos y, linked, v.out_pos x mine, h);
      out_pos = λ y h. v.out_pos y (ground (arith, h));
      out_live = λ y h. v.out_live y (ground (arith, h));
      out_owner = λ y h. v.out_owner y (ground (arith, h));
      out_linked = λ y h. v.out_linked y (ground (arith, h));
    }

pub mem_free-Valid :
    (x : ℕ) (m : MemPool) (out : List ℕ) → Valid m (x ∷ out) → Valid (mem_free x m) out
mem_free-Valid x m out v =
    subst (λ p. Valid p out) (sym (mem_free_head x m (v.out_pos x (ground arith))))
      (put_back-Valid x m out v)

pub add_obj-Valid :
    (a b : ℕ) (m : MemPool) (out : List ℕ)
    → times a m.live ≡ 0
    → times b (a ∷ m.live) ≡ 0
    → Valid m out
    → Valid (add_obj a b m) out
add_obj-Valid a b m out fa fb v =
    let fb' : times b m.live ≡ 0 = ground (arith, fb) in
    let ne : b ≢ a = λ e. ground (arith, fb, e) in
    let new : times a m.objs ≡ 0 = ground (arith, v.objs_live a, fa) in
    record {
      objs_once = λ y. ground (arith, v.objs_once y, new);
      out_once = v.out_once;
      apart = λ y h. ground (arith, v.apart y, v.out_live y, v.out_owner y, fa, fb', h);
      objs_live = λ y h. ground (arith, v.objs_live y, h);
      objs_block = λ y h. ground (arith, v.objs_block y, h);
      objs_linked =
          λ y h. ground (arith, v.objs_linked y, v.objs_block y, v.objs_live y, fa, fb', h);
      objs_pos = λ y h. ground (arith, v.objs_pos y, h);
      out_pos = v.out_pos;
      out_live = λ y h. ground (arith, v.out_live y, h);
      out_owner = λ y h. ground (arith, v.out_owner y, v.out_live y, fb', h);
      out_linked = λ y h. ground (arith, v.out_linked y, v.out_live y, v.out_owner y, fa, fb', h);
    }

pub times-remove :
    (x y : ℕ) (out : List ℕ) → 0 < times x out → times y (x ∷ remove x out) ≡ times y out
unfolding remove
times-remove x y [] h = absurd (omega arith)
times-remove x y (z ∷ out) h = ground (arith, times-remove x y out)

-- The order in which the users' blocks are listed does not matter.
pub Valid-same :
    (m : MemPool) (out out' : List ℕ)
    → ((x : ℕ) → times x out' ≡ times x out)
    → Valid m out
    → Valid m out'
Valid-same m out out' same v = record {
  objs_once = v.objs_once;
  out_once = λ x. subst (λ t. t ≤ 1) (sym (same x)) (v.out_once x);
  apart = λ x h. v.apart x (subst (λ t. 0 < t) (same x) h);
  objs_live = v.objs_live;
  objs_block = v.objs_block;
  objs_linked = v.objs_linked;
  objs_pos = v.objs_pos;
  out_pos = λ x h. v.out_pos x (subst (λ t. 0 < t) (same x) h);
  out_live = λ x h. v.out_live x (subst (λ t. 0 < t) (same x) h);
  out_owner = λ x h. v.out_owner x (subst (λ t. 0 < t) (same x) h);
  out_linked = λ x h. v.out_linked x (subst (λ t. 0 < t) (same x) h);
}
