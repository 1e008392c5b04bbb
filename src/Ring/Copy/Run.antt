-- ===== src/Ring/Copy/Run.antt =====
-- Plain word-at-a-time copying, and what the loops of `Ring.Copy` come to.
use native.Mathlib.Nat.{zero-add, suc-add, zero-mul, suc-mul}
use dpdk_code_modify.Base.{ℕ, zero, suc, ◌+◌, ◌*◌, ◌^◌, ◌≤◌, ◌<◌, ◌≡◌, refl, arith}
use dpdk_code_modify.Ring.Copy.{Cursor, step, block4, block8, bulk, until_size, until_n}

module _ {M : Type 0} (assign : ℕ → ℕ → M → M) where
  -- `k` single steps.
  unfoldable pub steps : ℕ → Cursor M → Cursor M
  steps zero c = c
  steps (suc k) c = steps k (step assign c)

  pub steps-add : (j k : ℕ) (c : Cursor M) → steps (j + k) c ≡ steps k (steps j c)
  unfolding steps
  steps-add zero k c = rw zero-add
  steps-add (suc j) k c = rw suc-add (steps-add j k (step assign c))

  -- While no word wraps, both indices have moved on by the number of steps.
  pub steps_indices :
      (k : ℕ) (c : Cursor M)
      → c.i + k < 2 ^ 32
      → c.idx + k < 2 ^ 32
      → ((steps k c).i ≡ c.i + k) × ((steps k c).idx ≡ c.idx + k)
  unfolding steps
  steps_indices zero c p q = omega arith
  steps_indices (suc k) c p q =
      omega (arith, steps_indices k (step assign c) (omega arith) (omega arith))

  pub block4-steps : (c : Cursor M) → block4 assign c ≡ steps 4 c
  unfolding block4 steps
  block4-steps c = ground arith

  pub block8-steps : (c : Cursor M) → block8 assign c ≡ steps 8 c
  unfolding block8 steps
  block8-steps c = ground arith

  pub until_size-steps :
      (k fuel size : ℕ) (c : Cursor M)
      → c.idx + k ≡ size
      → k ≤ fuel
      → size < 2 ^ 32
      → until_size assign fuel size c ≡ steps k c
  unfolding until_size steps
  until_size-steps zero zero size c e f s = refl
  until_size-steps zero (suc fuel) size c e f s = ground arith
  until_size-steps (suc k) zero size c e f s = elim f [ ]
  until_size-steps (suc k) (suc fuel) size c e f s =
      ground (arith, until_size-steps k fuel size (step assign c))

  pub until_n-steps :
      (k fuel n : ℕ) (c : Cursor M)
      → c.i + k ≡ n
      → k ≤ fuel
      → n < 2 ^ 32
      → until_n assign fuel n c ≡ steps k c
  unfolding until_n steps
  until_n-steps zero zero n c e f s = refl
  until_n-steps zero (suc fuel) n c e f s = ground arith
  until_n-steps (suc k) zero n c e f s = elim f [ ]
  until_n-steps (suc k) (suc fuel) n c e f s =
      ground (arith, until_n-steps k fuel n (step assign c))

  module _ (width : ℕ) (block : Cursor M → Cursor M)
      (unrolled : (c : Cursor M) → block c ≡ steps width c) where
    pub bulk-steps :
        (q fuel limit : ℕ) (c : Cursor M)
        → 0 < width
        → c.i + q * width ≡ limit
        → q ≤ fuel
        → limit < 2 ^ 32
        → c.idx + q * width < 2 ^ 32
        → bulk assign block fuel limit c ≡ steps (q * width) c
    unfolding bulk steps
    bulk-steps zero zero limit c w e f s t = rw zero-mul refl
    bulk-steps zero (suc fuel) limit c w e f s t = ground (arith, zero-mul width)
    bulk-steps (suc q) zero limit c w e f s t = elim f [ ]
    bulk-steps (suc q) (suc fuel) limit c w e f s t = ground (
      arith,
      suc-mul q width,
      steps_indices width c,
      steps-add width (q * width) c,
      unrolled c,
      bulk-steps q fuel limit (steps width c),
    )
