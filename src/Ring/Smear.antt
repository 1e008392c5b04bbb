-- ===== src/Ring/Smear.antt =====
-- `rte_combine32ms1b` of ring/ring.h sets every bit below the highest one.
use native.Mathlib.Nat.{
  div-div-eq-div-mul, mul_comm, mul_assoc, div-add-mod, mul-mod_right, zero-div, mod-eq_of_lt,
}
use dpdk_code_modify.Base.{
  ℕ, zero, suc, ◌+◌, ◌-◌, ◌*◌, ◌/◌, ◌%◌, ◌^◌, ◌≤◌, ◌<◌, ◌≡◌, ◌≢◌, refl, sym, ap, ap₂, ◌∙◌, bit_or,
  arith, dec_lt,
}
use dpdk_code_modify.Base.Bits.{bit_or-digit, div-bit_or, pow_split}
use dpdk_code_modify.Base.Words.{pow_sum}
use dpdk_code_modify.Ring.Create.{combine32ms1b}

-- `f` ors a word with its shifts by less than `k`.
record Smears (k : ℕ) (f : ℕ → ℕ) : Type 0 where
  shifts : (x j : ℕ) → f x / 2 ^ j ≡ f (x / 2 ^ j)
  low : (x : ℕ) → x % 2 ^ k ≢ 0 → f x % 2 ≡ 1
  none : f 0 ≡ 0

abbrev twice : ℕ → (ℕ → ℕ) → ℕ → ℕ
twice k f x = bit_or (f x) (f x / 2 ^ k)

shift_swap : (x i j : ℕ) → x / 2 ^ i / 2 ^ j ≡ x / 2 ^ j / 2 ^ i
shift_swap x i j =
    div-div-eq-div-mul x (2 ^ i) (2 ^ j)
    ∙ ap (λ (t : ℕ). x / t) (mul_comm (2 ^ i) (2 ^ j))
    ∙ sym (div-div-eq-div-mul x (2 ^ j) (2 ^ i))

-- Two digits of base `p` that are 0.
no_digits : (x p : ℕ) → x % p ≡ 0 → x / p % p ≡ 0 → x % (p * p) ≡ 0
no_digits x p a b = ap (λ (t : ℕ). t % (p * p)) whole ∙ mul-mod_right (p * p) (x / p / p)
  where
    whole : x ≡ p * p * (x / p / p)
    whole =
        let low : x ≡ p * (x / p) = omega (arith, div-add-mod x p) in
        let high : x / p ≡ p * (x / p / p) = omega (arith, div-add-mod (x / p) p) in
        low ∙ ap (λ (t : ℕ). p * t) high ∙ sym (mul_assoc p p (x / p / p))

twice-Smears : (k : ℕ) (f : ℕ → ℕ) → Smears k f → Smears (k + k) (twice k f)
twice-Smears k f s = record {
  shifts = λ x j.
      div-bit_or j (f x) (f x / 2 ^ k)
      ∙ ap₂ bit_or (s.shifts x j) (shift_swap (f x) k j ∙ ap (λ (t : ℕ). t / 2 ^ k) (s.shifts x j));
  low = λ x h. elim (dec_lt 0 (x % 2 ^ k)) [
    | yes p ↦ omega (arith, bit_or-digit (f x) (f x / 2 ^ k), s.low x (omega arith))
    | no p ↦ omega (
      arith,
      bit_or-digit (f x) (f x / 2 ^ k),
      s.shifts x k,
      s.low (x / 2 ^ k)
          (λ z. h (ap (λ (t : ℕ). x % t) (pow_sum k k) ∙ no_digits x (2 ^ k) (omega arith) z)),
    )
  ];
  none = ap₂ bit_or (s.none) (ap (λ (t : ℕ). t / 2 ^ k) s.none ∙ zero-div (2 ^ k));
}

start-Smears : Smears 1 (λ x. x)
start-Smears = record { shifts = λ x j. refl; low = λ x h. omega arith; none = refl }

combine-Smears : Smears 32 combine32ms1b
unfolding combine32ms1b
combine-Smears =
    twice-Smears 16 _
      (twice-Smears 8 _ (twice-Smears 4 _ (twice-Smears 2 _ (twice-Smears 1 _ start-Smears))))

-- With `2 ^ m` the highest bit set, all ones.
pub combine-ones :
    (m x : ℕ) → 2 ^ m ≤ x → x < 2 * 2 ^ m → x < 2 ^ 32 → combine32ms1b x ≡ 2 * 2 ^ m - 1
combine-ones m x l u w = go m x l u w
  where
    open combine-Smears use {shifts, low, none}

    odd : (y : ℕ) → 0 < y → y < 2 ^ 32 → combine32ms1b y % 2 ≡ 1
    odd y p q = low y (omega (arith, mod-eq_of_lt {n = y} {m = 2 ^ 32} q))

    go : (k y : ℕ) → 2 ^ k ≤ y → y < 2 * 2 ^ k → y < 2 ^ 32 → combine32ms1b y ≡ 2 * 2 ^ k - 1
    go zero y a b c =
        let one : y ≡ 1 = omega arith in
        let half : combine32ms1b (y / 2) ≡ 0 = ap combine32ms1b (omega arith) ∙ none in
        omega (arith, shifts y 1, half, odd y (omega arith) c)
    go (suc k) y a b c = omega (
      arith,
      pow_split k,
      shifts y 1,
      go k (y / 2) (omega (arith, pow_split k)) (omega (arith, pow_split k)) (omega arith),
      odd y (omega (arith, pow_split k)) c,
    )
