-- ===== src/Ring/Align.antt =====
-- ring/test2.c, and `rte_align32pow2` of ring/ring.h: two ways to round a word up to a power of two.
use dpdk_code_modify.Base.{
  ℕ, zero, suc, ◌+◌, ◌-◌, ◌*◌, ◌/◌, ◌^◌, ◌≤◌, ◌<◌, ◌≡◌, ◌⊎◌, inl, inr, refl, sym, ap, ◌∙◌, Option,
  some, none, bit_or, arith, dec_lt, ltb, if◌then◌else◌,
}
use dpdk_code_modify.Base.Bits.{pow_split}
use dpdk_code_modify.Base.Words.{add32, sub32, mul32, pow-le}
use dpdk_code_modify.Ring.Create.{combine32ms1b, align32pow2}
use dpdk_code_modify.Ring.Smear.{combine-ones}

-- `align_to_power_of_two_bitwise`
unfoldable pub align_to_power_of_two_bitwise : ℕ → ℕ
align_to_power_of_two_bitwise n =
    let a = sub32 n 1 in
    let b = bit_or a (a / 2 ^ 1) in
    let c = bit_or b (b / 2 ^ 2) in
    let d = bit_or c (c / 2 ^ 4) in
    let e = bit_or d (d / 2 ^ 8) in let f = bit_or e (e / 2 ^ 16) in add32 f 1

-- `while (result < n) result *= 2;`, with `none` for a loop that is still running after `fuel` tests.
unfoldable pub double_below : ℕ → ℕ → ℕ → Option ℕ
double_below zero n result = none
double_below (suc fuel) n result =
    let rest = double_below fuel n (mul32 result 2) in if ltb result n then rest else some result

-- `align_to_power_of_two_loop`
unfoldable pub align_to_power_of_two_loop : ℕ → ℕ → Option ℕ
align_to_power_of_two_loop fuel n = double_below fuel n 1

-- The least power of two that is not below `n`.
pub record LeastPower (n p : ℕ) : Type 0 where
  pub exponent : ℕ
  pub power : p ≡ 2 ^ exponent
  pub above : n ≤ p
  pub least : (j : ℕ) → n ≤ 2 ^ j → exponent ≤ j

pow-lt : (k j : ℕ) → 2 ^ k < 2 ^ j → k < j
pow-lt k j h = elim (dec_lt k j) [
  | yes p ↦ p
  | no p ↦ absurd (omega (arith, pow-le j k (omega arith)))
]

-- The highest bit of a positive word.
highest : (k x : ℕ) → 0 < x → x < 2 ^ k → (m : ℕ) × (m < k) × (2 ^ m ≤ x) × (x < 2 * 2 ^ m)
highest zero x p h = absurd (omega arith)
highest (suc k) x p h = elim (dec_lt x (2 ^ k)) [
  | yes l ↦ let (m, a, b, c) = highest k x p l in (m, omega arith, b, c)
  | no l ↦ (k, omega arith, omega arith, omega (arith, pow_split k))
]

-- Between two powers, the upper one; 2 ^ 32 is 0.
pub align-power :
    (m x : ℕ) → 2 ^ m < x → x ≤ 2 * 2 ^ m → x < 2 ^ 32 → align32pow2 x ≡ add32 (2 * 2 ^ m - 1) 1
unfolding align32pow2
align-power m x l u w =
    let pred : sub32 x 1 ≡ x - 1 = omega arith in
    ap (λ (t : ℕ). add32 (combine32ms1b t) 1) pred
    ∙ ap (λ (t : ℕ). add32 t 1) (combine-ones m (x - 1) (omega arith) (omega arith) (omega arith))

pub align_zero : align32pow2 0 ≡ 0
unfolding align32pow2 combine32ms1b
align_zero = refl

align_one : align32pow2 1 ≡ 1
unfolding align32pow2 combine32ms1b
align_one = refl

-- For a number from 1 to 2 ^ 31 `rte_align32pow2` is a power of two that is not below it, and the
-- least one.
pub align-LeastPower : (n : ℕ) → 0 < n → n ≤ 2 ^ 31 → LeastPower n (align32pow2 n)
align-LeastPower n p h = elim (dec_lt 1 n) [
  | no one ↦
      let e : n ≡ 1 = omega arith in
      record {
        exponent = 0;
        power = ap align32pow2 e ∙ align_one;
        above = omega (arith, ap align32pow2 e, align_one);
        least = λ j l. omega arith;
      }
  | yes more ↦
      let (m, a, b, c) = highest 31 (n - 1) (omega arith) (omega arith) in
      let q : 2 * 2 ^ m ≤ 2 ^ 31 = omega (arith, pow_split m, pow-le (suc m) 31 (omega arith)) in
      let e : align32pow2 n ≡ 2 ^ suc m =
        align-power m n (omega arith) (omega arith) (omega arith) ∙ omega (arith, pow_split m) in
      record {
        exponent = suc m;
        power = e;
        above = omega (arith, e, pow_split m);
        least = λ j l. pow-lt m j (omega arith);
      }
]

-- For a number above 2 ^ 31 `rte_align32pow2` wraps to 0.
pub align_overflow : (n : ℕ) → 2 ^ 31 < n → n < 2 ^ 32 → align32pow2 n ≡ 0
align_overflow n l u = align-power 31 n l (omega arith) u ∙ refl

pub bitwise-align : (n : ℕ) → align_to_power_of_two_bitwise n ≡ align32pow2 n
unfolding align_to_power_of_two_bitwise align32pow2 combine32ms1b
bitwise-align n = refl

module _ {n p : ℕ} (l : LeastPower n p) (fits : l.exponent ≤ 31) where
  open l use {exponent, power, above, least}

  -- From a power below the answer, the loop doubles up to the answer.
  doubles :
      (d k : ℕ) → k + d ≡ exponent → (fuel : ℕ) → d < fuel → double_below fuel n (2 ^ k) ≡ some p
  unfolding double_below
  doubles zero k e (suc fuel) f =
      let same : 2 ^ k ≡ p = ap (λ (t : ℕ). 2 ^ t) (omega arith) ∙ sym power in
      ground (arith, same, above)
  doubles (suc d) k e (suc fuel) f =
      let more : 2 ^ k < n = elim (dec_lt (2 ^ k) n) [
        | yes lt ↦ lt
        | no ge ↦ absurd (omega (arith, least k (omega arith)))
      ] in
      let next : mul32 (2 ^ k) 2 ≡ 2 ^ suc k =
        omega (arith, pow_split k, pow_split (suc k), pow-le (suc k) 31 (omega arith)) in
      ground (
        arith,
        more,
        ap (double_below fuel n) next ∙ doubles d (suc k) (omega arith) fuel (omega arith),
      )
  doubles d k e zero f = absurd (omega arith)

-- For a number from 1 to 2 ^ 31 the loop of `align_to_power_of_two_loop` ends within 32 tests and
-- returns what `align_to_power_of_two_bitwise` does.
pub loop-bitwise :
    (n : ℕ)
    → 0 < n
    → n ≤ 2 ^ 31
    → (fuel : ℕ) → 32 ≤ fuel
    → align_to_power_of_two_loop fuel n ≡ some (align_to_power_of_two_bitwise n)
unfolding align_to_power_of_two_loop
loop-bitwise n p h fuel f =
    let l = align-LeastPower n p h in
    let fits : l.exponent ≤ 31 = l.least 31 (omega arith) in
    doubles l fits (l.exponent) 0 (omega arith) fuel (omega arith)
    ∙ ap (λ (t : ℕ). some t) (sym (bitwise-align n))

-- What the loop's variable can be.
abbrev IsDoubled : ℕ → Type 0
IsDoubled result = (result ≡ 0) ⊎ ((k : ℕ) × (k ≤ 31) × (result ≡ 2 ^ k))

double-IsDoubled : (result : ℕ) → IsDoubled result → IsDoubled (mul32 result 2)
double-IsDoubled result (inl e) = inl (omega arith)
double-IsDoubled result (inr (k, l, e)) = elim (dec_lt k 31) [
  | yes lt ↦ inr (
    suc k,
    omega arith,
    omega (arith, pow_split k, pow_split (suc k), pow-le (suc k) 31 (omega arith)),
  )
  | no ge ↦
      let last : k ≡ 31 = omega arith in
      let top : result ≡ 2 ^ 31 = e ∙ ap (λ (t : ℕ). 2 ^ t) last in inl (omega arith)
]

doubles_on : (fuel n result : ℕ) → 2 ^ 31 < n → IsDoubled result → double_below fuel n result ≡ none
unfolding double_below
doubles_on zero n result h d = refl
doubles_on (suc fuel) n result h d =
    let below : result < n = elim d [
      | inl e ↦ omega arith
      | inr (k, l, e) ↦ omega (arith, pow-le k 31 l)
    ] in
    ground (arith, below, doubles_on fuel n (mul32 result 2) h (double-IsDoubled result d))

-- For a number above 2 ^ 31 the loop of `align_to_power_of_two_loop` is still running after any
-- number of tests.
pub loop_endless : (n : ℕ) → 2 ^ 31 < n → (fuel : ℕ) → align_to_power_of_two_loop fuel n ≡ none
unfolding align_to_power_of_two_loop
loop_endless n h fuel = doubles_on fuel n 1 h (inr (0, omega arith, refl))
