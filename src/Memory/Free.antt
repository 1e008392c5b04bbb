-- ===== src/Memory/Free.antt =====
-- `heap_free` of malloc_heap.c on a valid heap.
use dpdk_code_modify.Base.{
  ℕ, ◌+◌, ◌-◌, ◌≤◌, ◌≡◌, ◌≢◌, refl, Bool, true, false, arith, ◌==◌, if◌then◌else◌, ap, ◌∙◌, sym,
  ne→not-==, Bool-cases, inl, inr, ==_iff,
}
use dpdk_code_modify.Base.Words.{sub32, add64, sub64}
use dpdk_code_modify.Base.Loops.{within}
use dpdk_code_modify.Memory.Types.{is_free, Heap}
use dpdk_code_modify.Memory.Elem.{
  join_next, join_prev, malloc_elem_join_adjacent_free, malloc_elem_free,
  malloc_elem_free_list_insert, set_state,
}
use dpdk_code_modify.Memory.Heap.{heap_free}
use dpdk_code_modify.Memory.Inv.{IsValid}
use dpdk_code_modify.Memory.Carve.{IsValid-count}
use dpdk_code_modify.Memory.Open.{IsOpen}
use dpdk_code_modify.Memory.Close.{closed-cells, closed-IsValid}
use dpdk_code_modify.Memory.Merge.{join_next-Joined, join_prev-Merged}

-- What `heap_free` owes for the element `x`: a valid heap in which the space of `x` is part of a free
-- element, the other elements in use are as before, and the data of `x`, and nothing else, is cleared.
pub record FreedWell (live : ℕ → Bool) (lo hi : ℕ) (h : Heap) (x : ℕ) (h' : Heap) : Type 0 where
  pub live' : ℕ → Bool
  pub j : ℕ
  pub valid : IsValid live' lo hi h'
  pub there : (live' j ≡ true) × (is_free (h'.elems j).state ≡ true)
  pub covers : (j ≤ x) × (x + (h.elems x).size ≤ j + (h'.elems j).size)
  pub kept :
      (a : ℕ)
      → live a ≡ true
      → a ≢ x
      → is_free (h.elems a).state ≡ false
      → (live' a ≡ true)
        × (is_free (h'.elems a).state ≡ false)
        × ((h'.elems a).size ≡ (h.elems a).size)
  pub only :
      (a : ℕ)
      → live' a ≡ true
      → is_free (h'.elems a).state ≡ false
      → (live a ≡ true) × (is_free (h.elems a).state ≡ false) × (a ≢ x)
  pub cleared :
      (b : ℕ) → h'.bytes b ≡ (if within (x + 56) ((h.elems x).size - 56) b then 0 else h.bytes b)
  pub counted : h'.alloc_count ≡ sub32 h.alloc_count 1

inserted-rest :
    (j : ℕ) (h : Heap)
    → let h' = malloc_elem_free_list_insert j h in
      (h'.bytes ≡ h.bytes) × (h'.alloc_count ≡ h.alloc_count)
unfolding malloc_elem_free_list_insert set_state
inserted-rest j h = (refl, refl)

module _ (live : ℕ → Bool) (lo hi : ℕ) (h : Heap) (v : IsValid live lo hi h) (x : ℕ)
    (here : live x ≡ true) (busy : is_free (h.elems x).state ≡ false) where
  opened : IsOpen live lo hi h x
  opened = record {
    tiled = v.tiled;
    here = here;
    listed = λ i a lt. elim (Bool-cases (a == x)) [
      | inl at ↦
          let e : a ≡ x = (==_iff a x).0 at in
          ground (arith, v.listed.listed i a lt, ap (λ (t : ℕ). is_free (h.elems t).state) e)
      | inr away ↦ ground (arith, v.listed.listed i a lt)
    ];
    merged = λ a la fr ne some_next other. v.merged.merged a la fr some_next;
  }

  malloc_elem_free-FreedWell : FreedWell live lo hi h x ((malloc_elem_free h x).1)
  unfolding malloc_elem_free malloc_elem_join_adjacent_free
  malloc_elem_free-FreedWell =
      let first = join_next-Joined live lo hi h x opened in
      let h1 = join_next x h in
      let second = join_prev-Merged first.live' lo hi h1 x first.is_open first.behind in
      let j = (join_prev x h1).0 in
      let h2 = (join_prev x h1).1 in
      let done = second.joins in
      let cells = closed-cells done.live' lo hi h2 j done.is_open in
      let (same_bytes, same_count) = inserted-rest j h2 in
      let top = v.tiled.top in
      let high = v.tiled.inside x here in
      let wide = v.tiled.roomy x here in
      record {
        live' = done.live';
        j = j;
        valid =
            IsValid-count _ _
              (closed-IsValid done.live' lo hi h2 j done.is_open done.behind second.before);
        there = (done.is_open.here, ground (arith, cells j));
        covers =
            (done.starts, (let a = first.ends in let b = done.ends in ground (arith, cells j)));
        kept = λ a la ne in_use.
            let (l1, b1, s1) = first.kept a la ne in_use in
            let (l2, b2, s2) = done.kept a l1 ne b1 in
            elim (Bool-cases (j == a)) [
              | inl at ↦
                  let e : j ≡ a = (==_iff j a).0 at in
                  let other : j ≢ x = λ same. ne (sym e ∙ same) in
                  let fr = done.own other in
                  absurd (ground (arith, ap (λ (t : ℕ). is_free (h1.elems t).state) e))
              | inr away ↦ ground (arith, cells a)
            ];
        only = λ a la in_use.
            let away : (j == a) ≡ false = ground (arith, cells a) in
            let (l1, b1) = done.only a la (ground (arith, cells a)) in
            let (l0, b0) = first.only a l1 b1 in
            (
              l0,
              b0,
              λ same.
                  let starts = done.starts in
                  let ends1 = first.ends in
                  let ends2 = done.ends in
                  ground (arith, done.is_open.tiled.apart j a done.is_open.here la),
            );
        cleared = λ b.
            let start : add64 x 56 ≡ x + 56 = omega arith in
            let len : sub64 (h.elems x).size 56 ≡ (h.elems x).size - 56 = omega arith in
            let bytes : (malloc_elem_free_list_insert j h2).bytes b ≡ h.bytes b =
              ap (λ (t : ℕ → ℕ). t b) (same_bytes ∙ done.same_bytes ∙ first.same_bytes) in
            ground (arith, start, len, bytes);
        counted = ap (λ (n : ℕ). sub32 n 1) (same_count ∙ done.same_count ∙ first.same_count);
      }

  -- On a valid heap `heap_free` of the data of an element in use leaves a valid heap, in which no
  -- two free elements lie side by side, the space of the element is part of a free one, the
  -- elements in use are the others, as they were, its data and nothing else is cleared, and one
  -- allocation less is counted.
  pub heap_free-FreedWell : FreedWell live lo hi h x (heap_free h (x + 56))
  unfolding heap_free
  heap_free-FreedWell =
      let top = v.tiled.top in
      let high = v.tiled.inside x here in
      let wide = v.tiled.roomy x here in
      let low = v.tiled.above x here in
      let pos = v.tiled.pos in
      let data_real : (x + 56 == 0) ≡ false = ne→not-== (x + 56) 0 (omega arith) in
      let header : sub64 (x + 56) 56 ≡ x = omega arith in
      rw (data_real, header, ne→not-== x 0 (omega arith)) malloc_elem_free-FreedWell
