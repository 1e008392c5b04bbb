-- ===== src/Ring/Shape.antt =====
-- What never changes once a ring is made: its size is a power of two, and the mask picks an index.
use native.Mathlib.Nat.{mod-lt, mod-eq_of_lt, mod-eq-sub-mod, mod-add-mod}
use dpdk_code_modify.Base.{
  ℕ, ◌+◌, ◌-◌, ◌%◌, ◌^◌, ◌≤◌, ◌<◌, ◌≡◌, ◌≢◌, sym, ◌∙◌, ap, arith, bit_and, dec_lt,
}
use dpdk_code_modify.Base.Bits.{bit_and-mask, pow_split}
use dpdk_code_modify.Base.Words.{u32, mod-pow-u32, pow-le}
use dpdk_code_modify.Ring.Types.{Ring}

pub record Shape (order : ℕ) (r : Ring) : Type 0 where
  pub order_le : order ≤ 31
  pub size_pow : r.size ≡ 2 ^ order
  pub mask_low : r.mask ≡ r.size - 1
  pub spare : r.capacity < r.size

module _ {order : ℕ} {r : Ring} (s : Shape order r) where
  open s use {order_le, size_pow, mask_low}

  pub shape_bounds : (0 < r.size) × (r.size ≤ 2 ^ 31)
  shape_bounds = omega (arith, pow_split order, pow-le order 31 order_le)

  -- The mask picks the index of a head.
  pub masked : (h : ℕ) → bit_and h r.mask ≡ h % r.size
  masked h =
      ap (λ (t : ℕ). bit_and h t) (mask_low ∙ ap (λ (t : ℕ). t - 1) size_pow)
      ∙ bit_and-mask order h
      ∙ ap (λ (t : ℕ). h % t) (sym size_pow)

  -- Words wrap at a multiple of the size.
  pub wrapped : (h : ℕ) → u32 h % r.size ≡ h % r.size
  wrapped h =
      ap (λ (t : ℕ). u32 h % t) size_pow
      ∙ mod-pow-u32 order h (omega arith)
      ∙ ap (λ (t : ℕ). h % t) (sym size_pow)

-- Counts less than a size apart stand in different slots.
pub slots_differ : (size x y : ℕ) → x < y → y < x + size → x % size ≢ y % size
slots_differ size x y l u = elim (dec_lt (x % size + (y - x)) size) [
  | yes p ↦ omega (arith, shifted, mod-eq_of_lt {n = x % size + (y - x)} {m = size} p, below)
  | no p ↦ omega (
    arith,
    shifted,
    below,
    mod-eq-sub-mod {n = x % size + (y - x)} {m = size} (omega arith),
    mod-eq_of_lt {n = x % size + (y - x) - size} {m = size} (omega (arith, below)),
  )
]
  where
    below : x % size < size
    below = mod-lt x (omega arith)

    shifted : (x % size + (y - x)) % size ≡ y % size
    shifted = mod-add-mod x size (y - x) ∙ ap (λ (t : ℕ). t % size) (omega arith)
