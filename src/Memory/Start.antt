-- ===== src/Memory/Start.antt =====
-- Where data fits in an element: `elem_start_pt` of malloc_elem.c.
use native.Mathlib.Nat.{
  div-add-mod, mod-lt, mul-le-mul_right, mul_comm, mul-sub, div-lt_iff_lt-mul, mod-eq_of_lt,
  mul-mod_left, div-mul-le_self,
}
use dpdk_code_modify.Base.{
  ℕ, ◌+◌, ◌-◌, ◌*◌, ◌/◌, ◌%◌, ◌^◌, ◌≤◌, ◌<◌, ◌≡◌, ap, ◌∙◌, arith, dec_lt, le→leb, lt→not-leb,
  lt→ltb, le→not-ltb,
}
use dpdk_code_modify.Base.Bits.{pow_split, bit_and-shifted, bit_and-mask}
use dpdk_code_modify.Base.Words.{add64, sub64, sub32, not64, pow-le, pow_sum}
use dpdk_code_modify.Memory.Types.{Heap, align_floor}
use dpdk_code_modify.Memory.Elem.{elem_start_pt}

-- `RTE_ALIGN_FLOOR` at a power of two below 2 ^ 32 rounds a 64-bit word down to a multiple of it.
pub align_floor_lem : (k x : ℕ) → k < 32 → x < 2 ^ 64 → align_floor x (2 ^ k) ≡ x / 2 ^ k * 2 ^ k
unfolding align_floor
align_floor_lem k x small word =
    let full : 64 ≡ 64 - k + k = omega arith in
    let whole : 2 ^ 64 ≡ 2 ^ (64 - k) * 2 ^ k = ap (λ (t : ℕ). 2 ^ t) full ∙ pow_sum (64 - k) k in
    let room = pow-le k 31 (omega arith) in
    let one = pow_split k in
    let less : sub32 (2 ^ k) 1 ≡ 2 ^ k - 1 = omega arith in
    let mask : not64 (2 ^ k - 1) ≡ (2 ^ (64 - k) - 1) * 2 ^ k = omega (
      arith,
      whole,
      mul-sub (2 ^ k) (2 ^ (64 - k)) 1,
      mul_comm (2 ^ k) (2 ^ (64 - k) - 1),
      mul_comm (2 ^ k) (2 ^ (64 - k)),
    ) in
    let top : x / 2 ^ k < 2 ^ (64 - k) =
      (div-lt_iff_lt-mul {k = 2 ^ k} {x = x} {y = 2 ^ (64 - k)} (omega arith)).1 (omega arith) in
    rw (less, mask)
      (bit_and-shifted k x (2 ^ (64 - k) - 1)
        ∙ ap (λ (t : ℕ). t * 2 ^ k) (bit_and-mask (64 - k) (x / 2 ^ k) ∙ mod-eq_of_lt top))

-- Where the data of an element may start: aligned, behind a header, and with `size` bytes to come.
pub record FitsAt (h : Heap) (elem size k data_start : ℕ) : Type 0 where
  pub aligned : data_start % 2 ^ k ≡ 0
  pub behind : elem + 56 ≤ data_start
  pub ends : data_start + size ≤ elem + (h.elems elem).size

-- What `elem_start_pt` yields: NULL when no place fits, or the header in front of the last place.
pub data StartOutcome (h : Heap) (elem size k : ℕ) : ℕ → Type 0 where
  no_place : ((data_start : ℕ) → FitsAt h elem size k data_start → ⊥) → StartOutcome h elem size k 0
  place :
      (new_elem : ℕ)
      → elem ≤ new_elem
      → FitsAt h elem size k (new_elem + 56)
      → ((data_start : ℕ) → FitsAt h elem size k data_start → data_start ≤ new_elem + 56)
      → StartOutcome h elem size k new_elem

module _ (h : Heap) (elem size k : ℕ) (small : k < 32) (above : 2 ^ k + 56 ≤ elem)
    (within_word : elem + (h.elems elem).size < 2 ^ 64) where
  abbrev end_less : ℕ
  end_less = elem + (h.elems elem).size - size

  -- A multiple of `2 ^ k` that is not above `x` is not above `x` rounded down.
  last_multiple : (d x : ℕ) → d % 2 ^ k ≡ 0 → d ≤ x → d ≤ x / 2 ^ k * 2 ^ k
  last_multiple d x even le =
      let at_d = div-add-mod d (2 ^ k) in
      let at_x = div-add-mod x (2 ^ k) in
      let rest = mod-lt x {m = 2 ^ k} (omega (arith, pow_split k)) in
      elim (dec_lt (x / 2 ^ k) (d / 2 ^ k)) [
        | yes over ↦ absurd (
            ground (
              arith,
              at_d,
              at_x,
              rest,
              mul-le-mul_right {m = x / 2 ^ k + 1} {n = d / 2 ^ k} (2 ^ k),
            ))
        | no fine ↦ ground (arith, at_d, mul-le-mul_right {m = d / 2 ^ k} {n = x / 2 ^ k} (2 ^ k))
      ]

  -- For an alignment `2 ^ k` with k below 32 and an element at or above `2 ^ k + 56` that ends
  -- below 2 ^ 64, `elem_start_pt` yields NULL when no aligned start behind a header leaves room
  -- for the data, or else the header of the last such start, which is not before the element.
  pub elem_start_pt-StartOutcome : StartOutcome h elem size k (elem_start_pt h elem size (2 ^ k))
  unfolding elem_start_pt
  elem_start_pt-StartOutcome = elim (dec_lt (h.elems elem).size size) [
    | yes short ↦
        rw (lt→not-leb size (h.elems elem).size short, elem_start_pt)
          (no_place (λ d fits. let ends = fits.ends in let behind = fits.behind in omega arith))
    | no enough ↦
        let x = end_less in
        let f = x / 2 ^ k * 2 ^ k in
        let start : sub64 (add64 elem (h.elems elem).size) size ≡ x = omega arith in
        let floor = align_floor_lem k x small (omega arith) in
        let near = mod-lt x {m = 2 ^ k} (omega (arith, pow_split k)) in
        let split = div-add-mod x (2 ^ k) in
        let below : f ≤ x = div-mul-le_self x (2 ^ k) in
        let close : x < f + 2 ^ k = omega arith in
        let header : sub64 f 56 ≡ f - 56 = omega arith in
        elim (dec_lt (f - 56) elem) [
          | yes before ↦
              rw
                (
                  le→leb size (h.elems elem).size (omega arith),
                  start,
                  floor,
                  header,
                  lt→ltb (f - 56) elem before,
                  elem_start_pt,
                )
                (no_place (λ d fits.
                  let ends = fits.ends in
                  let behind = fits.behind in
                  omega (arith, last_multiple d x fits.aligned (omega arith))))
          | no after ↦
              let back : f - 56 + 56 ≡ f = omega arith in
              rw
                (
                  le→leb size (h.elems elem).size (omega arith),
                  start,
                  floor,
                  header,
                  le→not-ltb (f - 56) elem (omega arith),
                  elem_start_pt,
                )
                (place (f - 56) (omega arith)
                  (rw back (record {
                    aligned = mul-mod_left (x / 2 ^ k) (2 ^ k);
                    behind = omega arith;
                    ends = omega arith;
                  }))
                  (λ d fits.
                    let ends = fits.ends in rw back (last_multiple d x fits.aligned (omega arith))))
        ]
  ]
