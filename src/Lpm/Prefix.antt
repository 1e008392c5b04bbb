-- ===== src/Lpm/Prefix.antt =====
-- The prefixes of lpm/lpm.c: masks, ranges and the addresses they cover.
use native.Mathlib.Nat.{
  div-add-mod, mod-lt, mul-le-mul_right, mul_assoc, div-lt_iff_lt-mul, div-mul-le_self,
  mod-eq_of_lt, mul_right_comm, add-mul,
}
use dpdk_code_modify.Base.{
  ℕ, zero, suc, ◌+◌, ◌-◌, ◌*◌, ◌/◌, ◌%◌, ◌^◌, ◌≤◌, ◌<◌, ◌≡◌, refl, sym, ap, ◌∙◌, Bool, true, ◌&&◌,
  arith, bit_and, ◌==◌, dec_lt, ==_iff,
}
use dpdk_code_modify.Base.Bits.{bit_and-mask, bit_and-shifted, pow_split}
use dpdk_code_modify.Base.Words.{pow_sum}
use dpdk_code_modify.Base.Loops.{within}
use dpdk_code_modify.Lpm.Types.{depth_to_mask}

-- The least address of the prefix of `ip` with `d` bits.
abbrev pub base : ℕ → ℕ → ℕ
base ip d = ip / 2 ^ (32 - d) * 2 ^ (32 - d)

-- `q` shares the first `d` bits of `ip`.
abbrev pub covers : ℕ → ℕ → ℕ → Bool
covers ip d q = q / 2 ^ (32 - d) == ip / 2 ^ (32 - d)

-- A test on every number below `n`.
abbrev all_below : ℕ → (ℕ → Bool) → Bool
all_below zero f = true
all_below (suc n) f = f n && all_below n f

all_below_lem : (n : ℕ) (f : ℕ → Bool) (k : ℕ) → all_below n f ≡ true → k < n → f k ≡ true
all_below_lem zero f k h lt = absurd (omega arith)
all_below_lem (suc n) f k h lt = elim (dec_lt k n) [
  | yes p ↦ all_below_lem n f k (ground arith) p
  | no q ↦ let e : k ≡ n = omega arith in rw e (ground arith)
]

abbrev ones : ℕ → ℕ
ones d = (2 ^ d - 1) * 2 ^ (32 - d)

-- `depth_to_mask` has the `d` upper bits set, at every depth that the interface lets through.
pub depth_to_mask_lem : (d : ℕ) → 1 ≤ d → d ≤ 32 → depth_to_mask d ≡ (2 ^ d - 1) * 2 ^ (32 - d)
unfolding depth_to_mask
depth_to_mask_lem d low high =
    let checked : all_below 32 (λ k. depth_to_mask (suc k) == ones (suc k)) ≡ true = refl in
    let e : d ≡ suc (d - 1) = omega arith in
    rw e (
      (==_iff (depth_to_mask (suc (d - 1))) (ones (suc (d - 1)))).0 (
        all_below_lem 32 (λ k. depth_to_mask (suc k) == ones (suc k)) (d - 1) checked
          (omega arith)))

-- An aligned block holds the numbers with the same quotient.
within_block : (c x j : ℕ) → 0 < x → within (c * x) x j ≡ (j / x == c)
within_block c x j pos =
    let at = div-add-mod j x in
    let rest = mod-lt j pos in
    elim (dec_lt (j / x) c) [
      | yes p ↦ ground (arith, at, rest, mul-le-mul_right {m = j / x + 1} {n = c} x)
      | no q ↦ elim (dec_lt c (j / x)) [
        | yes p ↦ ground (arith, at, rest, mul-le-mul_right {m = c + 1} {n = j / x} x)
        | no q' ↦
            let e : j / x ≡ c = omega arith in ground (arith, at, rest, ap (λ (t : ℕ). t * x) e)
      ]
    ]

module _ (ip d : ℕ) (low : 1 ≤ d) (high : d ≤ 32) (word : ip < 2 ^ 32) where
  -- For a depth from 1 to 32 and an address below 2 ^ 32, masking by `depth_to_mask` clears
  -- exactly the lower `32 - depth` bits: it gives the least address of the prefix.
  pub masked-base : bit_and ip (depth_to_mask d) ≡ base ip d
  masked-base =
      let full : 32 ≡ d + (32 - d) = omega arith in
      let whole : 2 ^ 32 ≡ 2 ^ d * 2 ^ (32 - d) = ap (λ (t : ℕ). 2 ^ t) full ∙ pow_sum d (32 - d) in
      let top : ip / 2 ^ (32 - d) < 2 ^ d =
        (div-lt_iff_lt-mul {k = 2 ^ (32 - d)} {x = ip} {y = 2 ^ d}
            (omega (arith, pow_split (32 - d)))).1
          (omega arith) in
      rw (depth_to_mask_lem d low high) (
        bit_and-shifted (32 - d) ip (2 ^ d - 1)
        ∙ ap (λ (t : ℕ). t * 2 ^ (32 - d)) (bit_and-mask d (ip / 2 ^ (32 - d)) ∙ mod-eq_of_lt top))

  pub base-lt : base ip d < 2 ^ 32
  base-lt = omega (arith, div-mul-le_self ip (2 ^ (32 - d)))

  pub within-covers : (q : ℕ) → within (base ip d) (2 ^ (32 - d)) q ≡ covers ip d q
  within-covers q =
      within_block (ip / 2 ^ (32 - d)) (2 ^ (32 - d)) q (omega (arith, pow_split (32 - d)))

  -- A shallow rule's addresses are those of a run of tbl24 entries.
  pub small-covers :
      d ≤ 24 → (q : ℕ) → within (base ip d / 256) (2 ^ (24 - d)) (q / 256) ≡ covers ip d q
  small-covers small q =
      let full : 32 - d ≡ 24 - d + 8 = omega arith in
      let split : 2 ^ (32 - d) ≡ 2 ^ (24 - d) * 2 ^ 8 =
        ap (λ (t : ℕ). 2 ^ t) full ∙ pow_sum (24 - d) 8 in
      let p = ip / 2 ^ (32 - d) in
      let whole : base ip d ≡ p * 2 ^ (24 - d) * 256 =
        ap (λ (t : ℕ). p * t) split ∙ sym (mul_assoc p (2 ^ (24 - d)) 256) in
      let inside = within-covers q in sym (sym inside ∙ ground arith)

  -- A deep rule's range stays in one group of 256.
  pub big-tail : 24 < d → base ip d % 256 + 2 ^ (32 - d) ≤ 256
  big-tail big =
      let x = 2 ^ (32 - d) in
      let z = 2 ^ (d - 24) in
      let p = ip / x in
      let full : 8 ≡ d - 24 + (32 - d) = omega arith in
      let split : 2 ^ 8 ≡ z * x = ap (λ (t : ℕ). 2 ^ t) full ∙ pow_sum (d - 24) (32 - d) in
      let below = mod-lt p {m = z} (omega (arith, pow_split (d - 24))) in
      let parts : p * x ≡ 256 * (p / z) + p % z * x =
        ap (λ (t : ℕ). t * x) (sym (div-add-mod p z))
        ∙ add-mul (z * (p / z)) (p % z) x
        ∙ ap (λ (t : ℕ). t + p % z * x)
            (mul_right_comm z (p / z) x ∙ ap (λ (t : ℕ). t * (p / z)) (sym split)) in
      omega (arith, parts, split, mul-le-mul_right {m = p % z + 1} {n = z} x (omega (arith, below)))

  pub big-covers :
      24 < d
      → (q : ℕ)
      → ((q / 256 == base ip d / 256) && within (base ip d % 256) (2 ^ (32 - d)) (q % 256))
        ≡ covers ip d q
  big-covers big q =
      let tail = big-tail big in let inside = within-covers q in sym (sym inside ∙ ground arith)
