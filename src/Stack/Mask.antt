-- ===== src/Stack/Mask.antt =====
-- `-n & (page_size - 1)`, for a page size that is a power of two, is what is missing to a whole page.
use Prim.Native.Nat.{bit_and, bit_and-bitwise, digits, min}
use native.Mathlib.Nat.{
  pow-suc, one-le-pow, mul_assoc, mul-add-mod_self_left, mod-eq_of_lt, mod-lt, mod-add-div,
}
use lthread.Base.{ℕ, zero, suc, ◌+◌, ◌-◌, ◌*◌, ◌/◌, ◌%◌, ◌^◌, ◌≤◌, ◌<◌, ◌≡◌, sym, ap, ◌∙◌, arith}

-- the remainder by an even number, from the remainder of the half
mod_double : (P x : ℕ) → 0 < P → x % (P * 2) ≡ x / 2 % P * 2 + x % 2
mod_double P x pos =
    let r = x / 2 % P in
    let small : r * 2 + x % 2 < P * 2 = omega (arith, mod-lt (x / 2) pos) in
    let whole : x ≡ P * 2 * (x / 2 / P) + (r * 2 + x % 2) = omega (
      arith,
      mod-add-div (x / 2) P,
      mul_assoc P 2 (x / 2 / P),
      ap (λ t. P * t) (twice (x / 2 / P)),
      mul_assoc P (x / 2 / P) 2,
    ) in
    ap (λ t. t % (P * 2)) whole
    ∙ mul-add-mod_self_left (P * 2) (x / 2 / P) (r * 2 + x % 2)
    ∙ mod-eq_of_lt small
  where
    twice : (q : ℕ) → 2 * q ≡ q * 2
    twice q = omega arith

-- The k lowest digits are those of the remainder by 2 ^ k; `f` counts digits, as in `digits`.
low_digits : (f x k : ℕ) → x ≤ f → digits (λ y. zero) min f x (2 ^ k - 1) ≡ x % 2 ^ k
low_digits zero zero k h = sym (mod-eq_of_lt (one-le-pow k 2 (omega arith)))
low_digits zero (suc x) k h = absurd (omega arith)
low_digits (suc f) zero k h = sym (mod-eq_of_lt (one-le-pow k 2 (omega arith)))
low_digits (suc f) (suc x) zero h = omega (arith, low_digits f (suc x / 2) zero (omega arith))
low_digits (suc f) (suc x) (suc k) h =
    let pos = one-le-pow k 2 (omega arith) in
    let half : (2 ^ suc k - 1) / 2 ≡ 2 ^ k - 1 = omega (arith, pow-suc 2 k) in
    omega (
      arith,
      ap (digits (λ y. zero) min f (suc x / 2)) half,
      low_digits f (suc x / 2) k (omega arith),
      mod_double (2 ^ k) (suc x) pos,
      pow-suc 2 k,
      ap (λ t. suc x % t) (pow-suc 2 k),
      pos,
    )

-- A mask of the k lowest bits is the remainder by 2 ^ k.
pub bit_and_mask : (k x : ℕ) → bit_and x (2 ^ k - 1) ≡ x % 2 ^ k
bit_and_mask k x = bit_and-bitwise x (2 ^ k - 1) ∙ low_digits x x k (omega arith)
