-- ===== src/Memory/Index.antt =====
-- The free list that an element belongs to: `malloc_elem_free_list_index` of malloc_elem.c.
use dpdk_code_modify.Base.{
  ℕ, zero, suc, ◌+◌, ◌-◌, ◌*◌, ◌/◌, ◌^◌, ◌≤◌, ◌<◌, ◌≡◌, refl, arith, dec_lt, le→leb, lt→not-leb,
}
use dpdk_code_modify.Base.Words.{sub64, pow-le}
use dpdk_code_modify.Memory.Elem.{clz, malloc_elem_free_list_index}

-- `clz n x` zeros come before the first digit of a positive `x` below `2 ^ n`.
clz_lem :
    (n x : ℕ)
    → 0 < x
    → x < 2 ^ n
    → (clz n x < n) × (2 ^ (n - 1 - clz n x) ≤ x) × (x < 2 ^ (n - clz n x))
unfolding clz
clz_lem zero x pos lt = absurd (omega arith)
clz_lem (suc n) x pos lt = elim (dec_lt x (2 ^ n)) [
  | yes low ↦
      let (a, b, c) = clz_lem n x pos low in
      let e1 : suc n - 1 - suc (clz n x) ≡ n - 1 - clz n x = omega arith in
      let e2 : suc n - suc (clz n x) ≡ n - clz n x = omega arith in
      rw (lt→not-leb (2 ^ n) x low, clz, e1, e2) (omega arith, b, c)
  | no high ↦
      let none_before : clz (suc n) x ≡ 0 = rw (le→leb (2 ^ n) x (omega arith), clz) refl in
      let e1 : suc n - 1 - clz (suc n) x ≡ n = omega arith in
      let e2 : suc n - clz (suc n) x ≡ suc n = omega arith in
      rw (e1, e2) (omega arith, omega arith, lt)
]

-- The sizes of list `i`: above `2 ^ (6 + 2 * i)` unless it is the first, at most `2 ^ (8 + 2 * i)`
-- unless it is the last.
pub record InClass (size i : ℕ) : Type 0 where
  pub there : i < 13
  pub upper : i < 12 → size ≤ 2 ^ (8 + 2 * i)
  pub lower : 0 < i → 2 ^ (6 + 2 * i) < size

-- For a size below 2 ^ 64 `malloc_elem_free_list_index` is one of the 13 lists; in all but the
-- last the size is at most `2 ^ (8 + 2 i)`, and in all but the first it is above `2 ^ (6 + 2 i)`.
pub malloc_elem_free_list_index-InClass :
    (size : ℕ) → size < 2 ^ 64 → InClass size (malloc_elem_free_list_index size)
unfolding malloc_elem_free_list_index
malloc_elem_free_list_index-InClass size word = elim (dec_lt (2 ^ 8) size) [
  | no small ↦
      rw (le→leb size (2 ^ 8) (omega arith), malloc_elem_free_list_index)
        (record {
          there = omega arith;
          upper = λ _. omega arith;
          lower = λ p. absurd (omega arith);
        })
  | yes big ↦
      let before : sub64 size 1 ≡ size - 1 = omega arith in
      let c = clz 64 (size - 1) in
      let (few, low, high) = clz_lem 64 (size - 1) (omega arith) (omega arith) in
      let log2 : sub64 64 c ≡ 64 - c = omega arith in
      let i = (64 - c - 8 + 2 - 1) / 2 in
      let deep : 9 ≤ 64 - c = elim (dec_lt (64 - c) 9) [
        | yes bad ↦ absurd (omega (arith, pow-le (64 - c) 8 (omega arith)))
        | no fine ↦ omega arith
      ] in
      elim (dec_lt 12 i) [
        | no fits ↦
            rw
              (
                lt→not-leb size (2 ^ 8) big,
                before,
                log2,
                le→leb i 12 (omega arith),
                malloc_elem_free_list_index,
              )
              (record {
                there = omega arith;
                upper = λ _. omega (arith, pow-le (64 - c) (8 + 2 * i) (omega arith));
                lower = λ _. omega (arith, pow-le (6 + 2 * i) (64 - 1 - c) (omega arith));
              })
        | yes over ↦
            rw
              (
                lt→not-leb size (2 ^ 8) big,
                before,
                log2,
                lt→not-leb i 12 over,
                malloc_elem_free_list_index,
              )
              (record {
                there = omega arith;
                upper = λ h. absurd (omega arith);
                lower = λ _. omega (arith, pow-le (6 + 2 * 12) (64 - 1 - c) (omega arith));
              })
      ]
]

-- For sizes below 2 ^ 64, a larger size is never in an earlier list.
pub malloc_elem_free_list_index_mono :
    (a b : ℕ) → a ≤ b → b < 2 ^ 64 → malloc_elem_free_list_index a ≤ malloc_elem_free_list_index b
malloc_elem_free_list_index_mono a b le word =
    let i = malloc_elem_free_list_index a in
    let j = malloc_elem_free_list_index b in
    let at_a = malloc_elem_free_list_index-InClass a (omega arith) in
    let at_b = malloc_elem_free_list_index-InClass b word in
    elim (dec_lt j i) [
      | no fine ↦ omega arith
      | yes bad ↦
          let i_lt = at_a.there in
          let above = at_a.lower (omega arith) in
          let below = at_b.upper (omega arith) in
          absurd (omega (arith, pow-le (8 + 2 * j) (6 + 2 * i) (omega arith)))
    ]
