-- ===== src/Memory/Close.antt =====
-- Putting a freed element back into the free lists.
use dpdk_code_modify.Base.{
  ℕ, ◌≡◌, ◌≢◌, refl, Bool, false, arith, ◌==◌, if◌then◌else◌, ap, ◌∙◌, Bool-cases, inl, inr, ==_iff,
}
use dpdk_code_modify.Memory.Types.{elem_free, is_free, Heap}
use dpdk_code_modify.Memory.Elem.{malloc_elem_free_list_insert, set_state}
use dpdk_code_modify.Memory.Inv.{IsListed, IsMerged, IsValid, member}
use dpdk_code_modify.Memory.Carve.{IsTiled-shape}
use dpdk_code_modify.Memory.Open.{IsOpen, next_live}

module _ (live : ℕ → Bool) (lo hi : ℕ) (h : Heap) (x : ℕ) (o : IsOpen live lo hi h x) where
  abbrev closed : Heap
  closed = malloc_elem_free_list_insert x h

  pub closed-cells :
      (a : ℕ)
      → closed.elems a ≡ (if x == a then record (h.elems x) { state = elem_free } else h.elems a)
  unfolding malloc_elem_free_list_insert set_state
  closed-cells a = refl

  closed-IsListed : IsListed live closed
  unfolding malloc_elem_free_list_insert set_state member
  closed-IsListed = record {
    listed = λ i a lt. let l = o.here in ground (arith, closed-cells a, o.listed i a lt);
  }

  closed-IsMerged :
      ((h.elems x).next ≢ 0 → is_free (h.elems (h.elems x).next).state ≡ false)
      → ((h.elems x).prev ≢ 0 → is_free (h.elems (h.elems x).prev).state ≡ false)
      → IsMerged live closed
  closed-IsMerged behind before = record {
    merged = λ a la fr some_next.
        let k = o.tiled in
        let n = (h.elems a).next in
        let same : (closed.elems a).next ≡ n = ground (arith, closed-cells a) in
        let (ln, nn, pn) = next_live k a la (ground arith) in
        let wide = k.roomy a la in
        let low = k.above a la in
        let pos = k.pos in
        rw same (elim (Bool-cases (x == a)) [
          | inl at ↦
              let e : a ≡ x = ground arith in
              let busy = behind (ground arith) in
              ground (arith, closed-cells n, ap (λ (t : ℕ). (h.elems t).next) e)
          | inr away ↦ elim (Bool-cases (x == n)) [
            | inl at ↦
                let e : x ≡ n = (==_iff x n).0 at in
                let back : (h.elems x).prev ≡ a = ap (λ (t : ℕ). (h.elems t).prev) e ∙ pn in
                let busy = before (ground arith) in
                absurd (ground (arith, closed-cells a, ap (λ (t : ℕ). (h.elems t).state) back))
            | inr other ↦ ground (arith, closed-cells a, closed-cells n, o.merged a la)
          ]
        ]);
  }

  -- No free neighbour is left.
  pub closed-IsValid :
      ((h.elems x).next ≢ 0 → is_free (h.elems (h.elems x).next).state ≡ false)
      → ((h.elems x).prev ≢ 0 → is_free (h.elems (h.elems x).prev).state ≡ false)
      → IsValid live lo hi closed
  unfolding malloc_elem_free_list_insert set_state
  closed-IsValid behind before = record {
    tiled = IsTiled-shape {h = h} (λ a. ground arith) refl refl o.tiled;
    listed = closed-IsListed;
    merged = closed-IsMerged behind before;
  }
