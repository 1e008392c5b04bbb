-- ===== src/Ring/Inv.antt =====
-- The state of a ring between calls: how the heads, the tails, the size and the mask hang together.
use native.Mathlib.Nat.{mod-add-mod, mod-lt}
use dpdk_code_modify.Base.{ℕ, ◌+◌, ◌-◌, ◌%◌, ◌^◌, ◌≤◌, ◌<◌, ◌≡◌, sym, ◌∙◌, ap, List, arith, bit_and}
use dpdk_code_modify.Base.Words.{u32, add32, sub32}
use dpdk_code_modify.Ring.Shape.{Shape, shape_bounds, masked, wrapped}
use dpdk_code_modify.Ring.Types.{Ring}
use dpdk_code_modify.Ring.Window.{window}

-- The number of elements in the ring.
abbrev pub held : Ring → ℕ
held r = sub32 (r.prod.tail) (r.cons.tail)

-- The number of elements that still fit.
abbrev pub room : Ring → ℕ
room r = r.capacity - held r

-- The elements, oldest first.
abbrev pub contents : Ring → List ℕ
contents r = window r.size r.slots (r.cons.tail % r.size) (held r)

-- No call is under way, so each head is at its tail.
pub record IsValid (order : ℕ) (r : Ring) : Type 0 where
  pub order_le : order ≤ 31
  pub size_pow : r.size ≡ 2 ^ order
  pub mask_low : r.mask ≡ r.size - 1
  pub spare : r.capacity < r.size
  pub prod_word : r.prod.head < 2 ^ 32
  pub prod_quiet : r.prod.tail ≡ r.prod.head
  pub cons_word : r.cons.head < 2 ^ 32
  pub cons_quiet : r.cons.tail ≡ r.cons.head
  pub held_le : held r ≤ r.capacity

module _ {order : ℕ} {r : Ring} (v : IsValid order r) where
  open v use {
    order_le, size_pow, mask_low, spare, prod_word, prod_quiet, cons_word, cons_quiet, held_le,
  }

  shape : Shape order r
  shape = record { order_le = order_le; size_pow = size_pow; mask_low = mask_low; spare = spare }

  pub size_bounds : (0 < r.size) × (r.size ≤ 2 ^ 31)
  size_bounds = shape_bounds shape

  pub mask-mod : (h : ℕ) → bit_and h r.mask ≡ h % r.size
  mask-mod = masked shape

  pub index-lt : (h : ℕ) → h % r.size < r.size
  index-lt h = mod-lt h size_bounds.0

  pub u32-mod-size : (h : ℕ) → u32 h % r.size ≡ h % r.size
  u32-mod-size = wrapped shape

  -- The producer's index lies `held` slots behind the consumer's.
  pub prod_index : r.prod.head % r.size ≡ (r.cons.tail % r.size + held r) % r.size
  prod_index =
      let wrapped : r.prod.head ≡ u32 (r.cons.tail + held r) = omega arith in
      ap (λ (t : ℕ). t % r.size) wrapped
      ∙ u32-mod-size (r.cons.tail + held r)
      ∙ sym (mod-add-mod (r.cons.tail) r.size (held r))

  -- What `__rte_ring_move_prod_head` reads as free, and `__rte_ring_move_cons_head` as entries.
  pub free-eq-room : sub32 (add32 r.capacity r.cons.tail) r.prod.head ≡ room r
  free-eq-room = omega (arith, size_bounds)

  pub entries-eq-held : sub32 r.prod.tail r.cons.head ≡ held r
  entries-eq-held = omega arith
