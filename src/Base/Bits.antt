-- ===== src/Base/Bits.antt =====
-- The bit operations of C on unsigned words, as arithmetic, at every width.
use Prim.Native.Nat.{max, bitwise, digits, bit_and-bitwise, bit_or-bitwise}
use native.Mathlib.Nat.{
  pow-suc, one-le-pow, div-add-mod, mod-lt, div-div-eq-div-mul, div-one, mul-one, mul_left_comm,
}
use dpdk_code_modify.Base.{
  ℕ, zero, suc, ◌+◌, ◌-◌, ◌*◌, ◌/◌, ◌%◌, ◌^◌, ◌≤◌, ◌<◌, min, bit_and, bit_or, ◌≡◌, refl, sym, ap,
  arith, dec_lt,
}

-- `digits` does not depend on its fuel once that covers the first number.
module _ (z : ℕ → ℕ) (f : ℕ → ℕ → ℕ) where
  digits_enough : (n m a b : ℕ) → a ≤ n → a ≤ m → digits z f n a b ≡ digits z f m a b
  digits_enough zero zero a b p q = refl
  digits_enough zero (suc m) zero b p q = refl
  digits_enough zero (suc m) (suc a) b p q = elim p [ ]
  digits_enough (suc n) zero zero b p q = refl
  digits_enough (suc n) zero (suc a) b p q = elim q [ ]
  digits_enough (suc n) (suc m) zero b p q = refl
  digits_enough (suc n) (suc m) (suc a) b p q =
      ap (λ (d : ℕ). d * 2 + f (suc a % 2) (b % 2))
        (digits_enough n m (suc a / 2) (b / 2) (omega arith) (omega arith))

  bitwise_unfold :
      (a b : ℕ)
      → bitwise z f (suc a) b ≡ bitwise z f (suc a / 2) (b / 2) * 2 + f (suc a % 2) (b % 2)
  bitwise_unfold a b =
      ap (λ (d : ℕ). d * 2 + f (suc a % 2) (b % 2))
        (digits_enough a (suc a / 2) (suc a / 2) (b / 2) (omega arith) (omega arith))

-- One binary digit at a time.
pub bit_and-digit : (a b : ℕ) → bit_and a b ≡ bit_and (a / 2) (b / 2) * 2 + min (a % 2) (b % 2)
bit_and-digit zero b = simp bit_and-bitwise (omega arith)
bit_and-digit (suc a) b = simp bit_and-bitwise (bitwise_unfold (λ y. zero) min a b)

pub bit_or-digit : (a b : ℕ) → bit_or a b ≡ bit_or (a / 2) (b / 2) * 2 + max (a % 2) (b % 2)
bit_or-digit zero b = simp bit_or-bitwise (omega arith)
bit_or-digit (suc a) b = simp bit_or-bitwise (bitwise_unfold (λ y. y) max a b)

pub pow_split : (k : ℕ) → (2 ^ suc k ≡ 2 * 2 ^ k) × (1 ≤ 2 ^ k)
pow_split k = (omega (arith, pow-suc 2 k), one-le-pow k 2 (omega arith))

bit_and-zero_below : (n a : ℕ) → a ≤ n → bit_and a 0 ≡ 0
bit_and-zero_below zero zero h = refl
bit_and-zero_below zero (suc a) h = elim h [ ]
bit_and-zero_below (suc n) a h = elim (dec_lt 0 a) [
  | yes p ↦ omega (arith, bit_and-digit a 0, bit_and-zero_below n (a / 2) (omega arith))
  | no p ↦ let e : a ≡ 0 = omega arith in rw e
]

pub bit_and-zero : (a : ℕ) → bit_and a 0 ≡ 0
bit_and-zero a = bit_and-zero_below a a (omega arith)

bit_or-zero_below : (n a : ℕ) → a ≤ n → bit_or a 0 ≡ a
bit_or-zero_below zero zero h = refl
bit_or-zero_below zero (suc a) h = elim h [ ]
bit_or-zero_below (suc n) a h = elim (dec_lt 0 a) [
  | yes p ↦ omega (arith, bit_or-digit a 0, bit_or-zero_below n (a / 2) (omega arith))
  | no p ↦ let e : a ≡ 0 = omega arith in rw e
]

pub bit_or-zero : (a : ℕ) → bit_or a 0 ≡ a
bit_or-zero a = bit_or-zero_below a a (omega arith)

-- Division and remainder by `2 * p`, a digit at a time.
pub mod-double : (a p : ℕ) → 0 < p → a % (2 * p) ≡ a / 2 % p * 2 + a % 2
mod-double a p h = grind (arith, div-add-mod (a / 2) p, mod-lt (a / 2) h)

pub div-double : (a p : ℕ) → a / (2 * p) ≡ a / 2 / p
div-double a p = sym (div-div-eq-div-mul a 2 p)

-- A mask of `k` low ones is the remainder by `2 ^ k`.
pub bit_and-mask : (k a : ℕ) → bit_and a (2 ^ k - 1) ≡ a % 2 ^ k
bit_and-mask zero a = omega (arith, bit_and-zero a)
bit_and-mask (suc k) a = ground (
  arith,
  pow_split k,
  bit_and-digit a (2 ^ suc k - 1),
  bit_and-mask k (a / 2),
  mod-double a (2 ^ k),
)

-- A mask shifted left by `k` reads the digits from `k` on.
pub bit_and-shifted : (k a m : ℕ) → bit_and a (m * 2 ^ k) ≡ bit_and (a / 2 ^ k) m * 2 ^ k
bit_and-shifted zero a m = simp (mul-one, div-one)
bit_and-shifted (suc k) a m = ground (
  arith,
  pow_split k,
  bit_and-digit a (m * 2 ^ suc k),
  bit_and-shifted k (a / 2) m,
  div-double a (2 ^ k),
  mul_left_comm m 2 (2 ^ k),
  mul_left_comm (bit_and (a / 2 ^ suc k) m) 2 (2 ^ k),
)

-- `k` low ones set by `|`.
pub bit_or-ones : (k a : ℕ) → bit_or a (2 ^ k - 1) ≡ a / 2 ^ k * 2 ^ k + (2 ^ k - 1)
bit_or-ones zero a = omega (arith, bit_or-zero a)
bit_or-ones (suc k) a = ground (
  arith,
  pow_split k,
  bit_or-digit a (2 ^ suc k - 1),
  bit_or-ones k (a / 2),
  div-double a (2 ^ k),
  mul_left_comm (a / 2 ^ suc k) 2 (2 ^ k),
)

-- `>>` distributes over `|`.
pub div-bit_or : (k a b : ℕ) → bit_or a b / 2 ^ k ≡ bit_or (a / 2 ^ k) (b / 2 ^ k)
div-bit_or zero a b = simp div-one
div-bit_or (suc k) a b = ground (
  arith,
  pow_split k,
  bit_or-digit a b,
  div-bit_or k (a / 2) (b / 2),
  div-double a (2 ^ k),
  div-double b (2 ^ k),
  div-double (bit_or a b) (2 ^ k),
)
