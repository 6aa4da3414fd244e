-- ===== src/Stack/Drop.antt =====
-- What `_lthread_madvise` of src/lthread.c gives back is whole pages below the stack pointer.
use native.Mathlib.Nat.{
  one-le-pow, pow-suc, mul-add-mod_self_left, mul-mod_right, mul-sub, mul_assoc, mul-le-mul_left,
  mod-le, mod-lt, mul-mod_left, mod-add-div', lt_of_mul-lt-mul_left, pow-le-pow_right,
}
use lthread.Base.{
  ℕ, zero, suc, ◌+◌, ◌-◌, ◌*◌, ◌/◌, ◌%◌, ◌^◌, ◌≤◌, ◌<◌, ◌≡◌, subst, sym, ap, ◌∙◌, arith, ltb, ◌&&◌,
  if◌then◌else◌, none, some,
}
use lthread.Stack.{Stack, size_t, sub, current_stack, round_up, whole_pages, lthread_madvise}
use lthread.Stack.Mask.{bit_and_mask}

sub_lem : (a b : ℕ) → b ≤ a → a < size_t → sub a b ≡ a - b
unfolding sub
sub_lem a b h lt = omega arith

multiple_mod : (P E n D : ℕ) → n ≤ E → (P * (E - n) + D) % P ≡ D % P
multiple_mod P E n D h = mul-add-mod_self_left P (E - n) D

-- `missing` is -current & (page_size - 1)
missing : (P E n cur D : ℕ) → P * E ≡ size_t → n ≤ E → cur + D ≡ P * n → sub 0 cur % P ≡ D % P
unfolding sub
missing P E n zero D e h split =
    let all : D ≡ P * n = omega arith in
    let none_left : 0 % P ≡ 0 = omega arith in
    none_left ∙ sym (ap (λ x. x % P) all ∙ mul-mod_right P n)
missing P E n (suc cur) D e h split =
    let less : sub 0 (suc cur) ≡ P * (E - n) + D =
      omega (arith, mul-sub P E n, mul-le-mul_left P h) in
    ap (λ x. x % P) less ∙ mul-add-mod_self_left P (E - n) D

pow_add : (k j : ℕ) → 2 ^ (k + j) ≡ 2 ^ k * 2 ^ j
pow_add k zero = let last : k + 0 ≡ k = omega arith in rw (last) (omega arith)
pow_add k (suc j) =
    let last : k + suc j ≡ suc (k + j) = omega arith in
    rw (last, pow-suc 2 (k + j), pow_add k j, pow-suc 2 j) (mul_assoc (2 ^ k) (2 ^ j) 2)

-- the rounding, where `D` bytes of the stack are free
round_up_lem :
    (k n cur D : ℕ)
    → k ≤ 63
    → 2 ^ k * n < size_t
    → cur + D ≡ 2 ^ k * n
    → round_up cur (2 ^ k) ≡ cur + D % 2 ^ k
unfolding round_up
round_up_lem k n cur D hk fits split =
    let E = 2 ^ (64 - k) in
    let bits : k + (64 - k) ≡ 64 = omega arith in
    let all : 2 ^ k * E ≡ size_t = sym (pow_add k (64 - k)) ∙ ap (λ x. 2 ^ x) bits in
    let bound = pow-le-pow_right {n = 2} (omega arith) hk in
    let page : sub (2 ^ k) 1 ≡ 2 ^ k - 1 =
      sub_lem (2 ^ k) 1 (one-le-pow k 2 (omega arith)) (omega (arith, bound)) in
    let n_lt : n < E = lt_of_mul-lt-mul_left (2 ^ k) (subst (λ x. 2 ^ k * n < x) (sym all) fits) in
    rw
      (
        round_up,
        page,
        bit_and_mask k (sub 0 cur),
        missing (2 ^ k) E n cur D all (omega (arith, n_lt)) split,
      )
      (omega (arith, mod-le D (2 ^ k)))

length_lem :
    (k n P S cur D : ℕ)
    → k ≤ 63
    → P ≡ 2 ^ k
    → S ≡ 2 ^ k * n
    → S < size_t
    → cur + D ≡ S
    → sub S (round_up cur P) ≡ D / P * P
length_lem k n P S cur D hk e_page e_size fits split =
    let up : round_up cur P ≡ cur + D % P =
      rw e_page
        (round_up_lem k n cur D hk (subst (λ x. x < size_t) e_size fits) (split ∙ e_size)) in
    rw (up)
      (sub_lem S (cur + D % P) (omega (arith, mod-le D P)) fits ∙ omega (arith, mod-add-div' D P))

current_stack_lem :
    (t : Stack)
    → t.stack + t.stack_size < size_t
    → t.stack ≤ t.esp
    → t.esp ≤ t.stack + t.stack_size
    → current_stack t ≡ t.stack + t.stack_size - t.esp
unfolding current_stack sub
current_stack_lem t fits lo hi = omega arith

-- Let the page size be a power of two, the stack size a multiple of it, the stack end below 2 ^ 64
-- and the stack pointer lie in the stack, and let madvise succeed on ranges at the start of the
-- stack that are no longer than it. Then no assertion of _lthread_madvise fails; it stores the
-- bytes in use, and exactly when fewer are in use than at the last yield and those were more than a
-- page it gives back the whole pages below the stack pointer: a whole number of pages that ends at
-- or below the stack pointer, with less than a page between.
pub madvise_safe :
    (madvise : ℕ → ℕ → ℕ) (k n : ℕ) (t : Stack)
    → k ≤ 63
    → t.page_size ≡ 2 ^ k
    → t.stack_size ≡ 2 ^ k * n
    → t.stack + t.stack_size < size_t
    → t.stack ≤ t.esp
    → t.esp ≤ t.stack + t.stack_size
    → ((len : ℕ) → len ≤ t.stack_size → madvise t.stack len ≡ 0)
    → (lthread_madvise madvise t
        ≡ some (
          record t { last_stack_size = t.stack + t.stack_size - t.esp },
          (if ltb (t.stack + t.stack_size - t.esp) t.last_stack_size
                && ltb t.page_size t.last_stack_size
              then some (t.stack, whole_pages t)
              else none),
        ))
      × (t.stack + whole_pages t ≤ t.esp)
      × (t.esp < t.stack + whole_pages t + t.page_size)
      × (whole_pages t % t.page_size ≡ 0)
unfolding lthread_madvise
madvise_safe madvise k n t hk e_page e_size fits lo hi ok =
    let used = t.stack + t.stack_size - t.esp in
    let D = t.esp - t.stack in
    let len : sub t.stack_size (round_up used t.page_size) ≡ whole_pages t =
      length_lem k n t.page_size t.stack_size used D hk e_page e_size (omega arith) (omega arith) in
    let rest = mod-add-div' D t.page_size in
    let pages : 0 < t.page_size = subst (λ x. 0 < x) (sym e_page) (one-le-pow k 2 (omega arith)) in
    let less = mod-lt D pages in
    let kernel = ok (whole_pages t) (omega (arith, rest)) in
    (
      rw (lthread_madvise, current_stack_lem t fits lo hi, len) (ground (arith, kernel)),
      omega (arith, rest),
      omega (arith, rest, less),
      mul-mod_left (D / t.page_size) t.page_size,
    )
