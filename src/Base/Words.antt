-- ===== src/Base/Words.antt =====
-- uint32_t: a value is a number below 2 ^ 32, and every operation wraps there.
use native.Mathlib.Nat.{
  mul_assoc, mul_left_comm, mul-one, add-zero, div-add-mod, mul-add-mod_self_left, pow-le-pow_right,
}
use dpdk_code_modify.Base.{
  ℕ, zero, suc, ◌+◌, ◌-◌, ◌*◌, ◌/◌, ◌%◌, ◌^◌, ◌≤◌, ◌<◌, bit_and, ◌≡◌, sym, ap, ◌∙◌, arith,
}
use dpdk_code_modify.Base.Bits.{bit_and-mask, bit_and-shifted, pow_split}

abbrev pub u32 : ℕ → ℕ
u32 n = n % 2 ^ 32

abbrev pub add32 : ℕ → ℕ → ℕ
add32 a b = u32 (a + b)

abbrev pub sub32 : ℕ → ℕ → ℕ
sub32 a b = u32 (a + 2 ^ 32 - b)

abbrev pub mul32 : ℕ → ℕ → ℕ
mul32 a b = u32 (a * b)

-- `~x`
abbrev pub not32 : ℕ → ℕ
not32 x = 2 ^ 32 - 1 - x

pub pow_sum : (a b : ℕ) → 2 ^ (a + b) ≡ 2 ^ a * 2 ^ b
pow_sum a zero = rw (add-zero, mul-one)
pow_sum a (suc b) =
    let e : a + suc b ≡ suc (a + b) = omega arith in
    rw e
      (ground (arith, pow_sum a b, pow_split b, pow_split (a + b), mul_left_comm (2 ^ a) 2 (2 ^ b)))

-- A multiple `p * q` of `p` as modulus does not disturb the remainder by `p`.
pub mod-mul-mod : (a p q : ℕ) → a % (p * q) % p ≡ a % p
mod-mul-mod a p q =
    sym (mul-add-mod_self_left p (q * (a / (p * q))) (a % (p * q)))
    ∙ ap (λ (t : ℕ). t % p) (omega (arith, div-add-mod a (p * q), mul_assoc p q (a / (p * q))))

-- Word arithmetic stays exact modulo a smaller power of two, such as the size of a ring.
pub mod-pow-u32 : (k a : ℕ) → k ≤ 32 → u32 a % 2 ^ k ≡ a % 2 ^ k
mod-pow-u32 k a h =
    let e : k + (32 - k) ≡ 32 = omega arith in
    let p : 2 ^ 32 ≡ 2 ^ k * 2 ^ (32 - k) = ap (λ (t : ℕ). 2 ^ t) (sym e) ∙ pow_sum k (32 - k) in
    ap (λ (t : ℕ). a % t % 2 ^ k) p ∙ mod-mul-mod a (2 ^ k) (2 ^ (32 - k))

pub pow-le : (k j : ℕ) → k ≤ j → 2 ^ k ≤ 2 ^ j
pow-le k j h = pow-le-pow_right (omega arith) h

-- `n & ~(2 ^ k - 1)` rounds a word down to a multiple of `2 ^ k`.
pub bit_and-not_three : (n : ℕ) → n < 2 ^ 32 → bit_and n (not32 3) ≡ n / 4 * 4
bit_and-not_three n h = omega (arith, bit_and-shifted 2 n (2 ^ 30 - 1), bit_and-mask 30 (n / 4))

pub bit_and-not_seven : (n : ℕ) → n < 2 ^ 32 → bit_and n (not32 7) ≡ n / 8 * 8
bit_and-not_seven n h = omega (arith, bit_and-shifted 3 n (2 ^ 29 - 1), bit_and-mask 29 (n / 8))

-- The same for uint64_t, which is also size_t and the type of an address.
abbrev pub u64 : ℕ → ℕ
u64 n = n % 2 ^ 64

abbrev pub add64 : ℕ → ℕ → ℕ
add64 a b = u64 (a + b)

abbrev pub sub64 : ℕ → ℕ → ℕ
sub64 a b = u64 (a + 2 ^ 64 - b)

abbrev pub not64 : ℕ → ℕ
not64 x = 2 ^ 64 - 1 - x
