-- ===== src/Memory/Open.antt =====
-- The heap while one element is being freed: `malloc_elem_join_adjacent_free` of malloc_elem.c.
use dpdk_code_modify.Base.{
  ℕ, ◌+◌, ◌<◌, ◌≡◌, ◌≢◌, refl, Bool, true, false, ◌&&◌, not, List, arith, ◌==◌, ap, sym, ◌∙◌,
  dec_lt, ◌⊎◌,
}
use dpdk_code_modify.Memory.Types.{is_free, Heap}
use dpdk_code_modify.Memory.Elem.{
  join_elem, malloc_elem_free_list_index, malloc_elem_free_list_remove, without,
}
use dpdk_code_modify.Memory.Inv.{IsTiled, member, member-without}
use dpdk_code_modify.Memory.Carve.{IsTiled-shape}
use dpdk_code_modify.Memory.Join.{
  without_elem, join_cells, join_cells_lem, join_elem-rest, join-IsTiled,
}

-- All is in order but for the element `x`, which is in no free list whatever its state.
pub record IsOpen (live : ℕ → Bool) (lo hi : ℕ) (h : Heap) (x : ℕ) : Type 0 where
  pub tiled : IsTiled live lo hi h
  pub here : live x ≡ true
  pub listed :
      (i a : ℕ)
      → i < 13
      → member a (h.free_head i) ≡ (
          not (a == x)
          && live a
          && is_free (h.elems a).state
          && (i == malloc_elem_free_list_index (h.elems a).size))
  pub merged :
      (a : ℕ)
      → live a ≡ true
      → is_free (h.elems a).state ≡ true
      → a ≢ x
      → (h.elems a).next ≢ 0
      → (h.elems a).next ≢ x
      → is_free (h.elems (h.elems a).next).state ≡ false

-- The neighbours of an element, if any, are elements.
pub next_live :
    {live : ℕ → Bool} {lo hi : ℕ} {h : Heap} (k : IsTiled live lo hi h) (a : ℕ)
    → live a ≡ true
    → (h.elems a).next ≢ 0
    → (live (h.elems a).next ≡ true)
      × ((h.elems a).next ≡ a + (h.elems a).size)
      × ((h.elems (h.elems a).next).prev ≡ a)
next_live {hi} {h} k a la ne = elim (dec_lt (a + (h.elems a).size) hi) [
  | yes more ↦ let (ln, nn, pn) = k.onward a la more in rw nn (ln, refl, pn)
  | no last ↦ let le = k.inside a la in absurd (ground (arith, k.final a la))
]

pub prev_live :
    {live : ℕ → Bool} {lo hi : ℕ} {h : Heap} (k : IsTiled live lo hi h) (a : ℕ)
    → live a ≡ true
    → (h.elems a).prev ≢ 0
    → let b = (h.elems a).prev in
      (live b ≡ true) × (b + (h.elems b).size ≡ a) × ((h.elems b).next ≡ a)
prev_live {lo} {h} k a la ne = elim (dec_lt lo a) [
  | yes more ↦
      let (lb, eb) = k.back a la more in
      let b = (h.elems a).prev in
      let wide = k.roomy a la in
      let le = k.inside a la in let (ln, nn, pn) = k.onward b lb (omega arith) in (lb, eb, nn ∙ eb)
  | no first ↦
      let le = k.above a la in
      let e : a ≡ lo = omega arith in
      absurd (ground (arith, k.front, ap (λ (t : ℕ). (h.elems t).prev) e))
]

module _ (live : ℕ → Bool) (lo hi : ℕ) (h : Heap) (e p gone : ℕ) (k : IsTiled live lo hi h)
    (here : live e ≡ true) (there : live p ≡ true) (near : e + (h.elems e).size ≡ p) where
  -- Both joins: element `p` goes into `e`, and `gone` leaves its list.
  abbrev pub joined : Heap
  joined = join_elem e p (malloc_elem_free_list_remove gone h)

  pub joined-cells : (a : ℕ) → joined.elems a ≡ join_cells h e p a
  unfolding malloc_elem_free_list_remove
  joined-cells a =
      join_cells_lem live lo hi (malloc_elem_free_list_remove gone h)
        (IsTiled-shape (λ a. (refl, refl, refl)) refl refl k) e p here there near a

  pub joined-IsTiled : IsTiled (without_elem p live) lo hi joined
  unfolding malloc_elem_free_list_remove
  joined-IsTiled =
      let (f, l, fh, b, c) = join_elem-rest (malloc_elem_free_list_remove gone h) e p in
      join-IsTiled live lo hi h k e p here there near joined joined-cells f l

  pub joined-lists : (i : ℕ) → joined.free_head i ≡ without gone (h.free_head i)
  unfolding malloc_elem_free_list_remove
  joined-lists i =
      let (f, l, fh, b, c) = join_elem-rest (malloc_elem_free_list_remove gone h) e p in
      ap (λ (t : ℕ → List ℕ). t i) fh

  pub joined-rest : (joined.bytes ≡ h.bytes) × (joined.alloc_count ≡ h.alloc_count)
  unfolding malloc_elem_free_list_remove
  joined-rest =
      let (f, l, fh, b, c) = join_elem-rest (malloc_elem_free_list_remove gone h) e p in (b, c)

  -- The element that is being freed may be either of the two; the other one is `gone`.
  pub joined-IsOpen :
      (x : ℕ)
      → IsOpen live lo hi h x
      → ((gone ≡ p) × (x ≡ e)) ⊎ ((gone ≡ e) × (x ≡ p))
      → is_free (h.elems gone).state ≡ true
      → IsOpen (without_elem p live) lo hi joined e
  joined-IsOpen x o which free =
      let wide = k.roomy e here in
      record {
        tiled = joined-IsTiled;
        here = ground arith;
        listed = λ i a lt. ground (
          arith,
          joined-lists i,
          joined-cells a,
          member-without a gone (h.free_head i),
          o.listed i a lt,
        );
        merged = λ a la fr ne some_next other.
            let lb : live a ≡ true = ground arith in
            let same : (joined.elems a).next ≡ (h.elems a).next = ground (arith, joined-cells a) in
            let was : is_free (h.elems a).state ≡ true = ground (arith, joined-cells a) in
            let n = (h.elems a).next in
            let (ln, nn, pn) = next_live k a lb (ground arith) in
            let long = k.roomy p there in
            let short = k.inside p there in
            let (lp, np, pp) = k.onward e here (omega arith) in
            let back_p : (h.elems p).prev ≡ e = ap (λ (t : ℕ). (h.elems t).prev) (sym near) ∙ pp in
            let apart_p : n ≢ p =
              λ at. ne (sym pn ∙ ap (λ (t : ℕ). (h.elems t).prev) at ∙ back_p) in
            let keeps : is_free (h.elems n).state ≡ false = ground (arith, o.merged a lb was) in
            rw same (ground (arith, joined-cells n));
      }

-- What a join leaves of the elements in use that it is not about.
pub joined-kept :
    (h : Heap) (e p a : ℕ)
    → a ≢ e
    → ((join_cells h e p a).state ≡ (h.elems a).state)
      × ((join_cells h e p a).size ≡ (h.elems a).size)
joined-kept h e p a ne = ground arith
