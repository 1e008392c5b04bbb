-- ===== src/Memory/Merge.antt =====
-- The two joins of `malloc_elem_join_adjacent_free` of malloc_elem.c.
use dpdk_code_modify.Base.{
  ℕ, ◌+◌, ◌≤◌, ◌≡◌, ◌≢◌, refl, Bool, true, false, arith, ◌==◌, ap, sym, Bool-cases, inl, inr,
  ==_iff,
}
use dpdk_code_modify.Memory.Types.{is_free, Heap}
use dpdk_code_modify.Memory.Elem.{
  join_elem, malloc_elem_free_list_remove, next_elem_is_adjacent, prev_elem_is_adjacent, join_next,
  join_prev,
}
use dpdk_code_modify.Memory.Join.{without_elem, join_cells}
use dpdk_code_modify.Memory.Open.{
  IsOpen, next_live, prev_live, joined, joined-cells, joined-IsOpen, joined-rest,
}

-- After a join: `j` stands for the element `x` of `h` and what has been joined to it.
pub record Joined (live : ℕ → Bool) (lo hi : ℕ) (h : Heap) (x j : ℕ) (h' : Heap) : Type 0 where
  pub live' : ℕ → Bool
  pub is_open : IsOpen live' lo hi h' j
  pub kept :
      (a : ℕ)
      → live a ≡ true
      → a ≢ x
      → is_free (h.elems a).state ≡ false
      → (live' a ≡ true)
        × (is_free (h'.elems a).state ≡ false)
        × ((h'.elems a).size ≡ (h.elems a).size)
  pub only :
      (a : ℕ)
      → live' a ≡ true
      → is_free (h'.elems a).state ≡ false
      → (live a ≡ true) × (is_free (h.elems a).state ≡ false)
  pub own : j ≢ x → is_free (h.elems j).state ≡ true
  pub starts : j ≤ x
  pub ends : x + (h.elems x).size ≤ j + (h'.elems j).size
  pub behind : (h'.elems j).next ≢ 0 → is_free (h'.elems (h'.elems j).next).state ≡ false
  pub same_bytes : h'.bytes ≡ h.bytes
  pub same_count : h'.alloc_count ≡ h.alloc_count

module _ (live : ℕ → Bool) (lo hi : ℕ) (h : Heap) (x : ℕ) (o : IsOpen live lo hi h x) where
  next-Joined :
      (h.elems x).next ≢ 0
      → is_free (h.elems (h.elems x).next).state ≡ true
      → let n = (h.elems x).next in
        Joined live lo hi h x x (join_elem x n (malloc_elem_free_list_remove n h))
  next-Joined some_next fr =
      let n = (h.elems x).next in
      let k = o.tiled in
      let (ln, near, pn) = next_live k x o.here some_next in
      let near' : x + (h.elems x).size ≡ n = sym near in
      let wide = k.roomy x o.here in
      let cells = joined-cells live lo hi h x n n k o.here ln near' in
      let rest = joined-rest live lo hi h x n n k o.here ln near' in
      record {
        live' = without_elem n live;
        is_open = joined-IsOpen live lo hi h x n n k o.here ln near' x o (inl (refl, refl)) fr;
        kept = λ a la ne busy. elim (Bool-cases (a == n)) [
          | inl at ↦
              let e : a ≡ n = (==_iff a n).0 at in
              absurd (ground (arith, ap (λ (t : ℕ). is_free (h.elems t).state) e))
          | inr away ↦ ground (arith, cells a)
        ];
        only = λ a la busy. ground (arith, cells a);
        own = λ other. absurd (other refl);
        starts = omega arith;
        ends = ground (arith, cells x);
        behind = λ some_more.
            let m = (h.elems n).next in
            let same : (joined live lo hi h x n n k o.here ln near').elems x ≡ join_cells h x n x =
              cells x in
            let (lm, nm, pm) = next_live k n ln (ground arith) in
            let wide_n = k.roomy n ln in
            let after : m ≢ x = omega arith in
            let apart : n ≢ x = omega arith in
            let busy = o.merged n ln fr apart (ground arith) after in
            let next_same : (joined live lo hi h x n n k o.here ln near').elems x ≡ _ = cells x in
            let to_m : ((join_elem x n (malloc_elem_free_list_remove n h)).elems x).next ≡ m =
              ground arith in
            rw to_m (ground (arith, cells m));
        same_bytes = rest.0;
        same_count = rest.1;
      }

  unmoved :
      ((h.elems x).next ≢ 0 → is_free (h.elems (h.elems x).next).state ≡ false)
      → Joined live lo hi h x x h
  unmoved behind = record {
    live' = live;
    is_open = o;
    kept = λ a la ne busy. (la, busy, refl);
    only = λ a la busy. (la, busy);
    own = λ other. absurd (other refl);
    starts = omega arith;
    ends = omega arith;
    behind = behind;
    same_bytes = refl;
    same_count = refl;
  }

  pub join_next-Joined : Joined live lo hi h x x (join_next x h)
  unfolding join_next
  join_next-Joined = elim (Bool-cases ((h.elems x).next == 0)) [
    | inl last ↦ rw (last, join_next) (unmoved (λ ne. absurd (ground arith)))
    | inr more ↦
        let ne : (h.elems x).next ≢ 0 = ground arith in
        let (ln, near, pn) = next_live o.tiled x o.here ne in
        let k = o.tiled in
        let top = k.top in
        let high = k.inside x o.here in
        elim (Bool-cases (is_free (h.elems (h.elems x).next).state)) [
          | inr busy ↦ rw (more, busy, join_next) (unmoved (λ _. busy))
          | inl fr ↦
              let adjacent : next_elem_is_adjacent h x ≡ true = ground arith in
              rw (more, fr, adjacent, join_next) (next-Joined ne fr)
        ]
  ]

-- After both joins no free neighbour is left.
pub record Merged (live : ℕ → Bool) (lo hi : ℕ) (h : Heap) (x j : ℕ) (h' : Heap) : Type 0 where
  pub joins : Joined live lo hi h x j h'
  pub before : (h'.elems j).prev ≢ 0 → is_free (h'.elems (h'.elems j).prev).state ≡ false

module _ (live : ℕ → Bool) (lo hi : ℕ) (h : Heap) (x : ℕ) (o : IsOpen live lo hi h x)
    (behind : (h.elems x).next ≢ 0 → is_free (h.elems (h.elems x).next).state ≡ false) where
  prev_joined :
      (h.elems x).prev ≢ 0
      → is_free (h.elems (h.elems x).prev).state ≡ true
      → let b = (h.elems x).prev in
        Merged live lo hi h x b (join_elem b x (malloc_elem_free_list_remove b h))
  prev_joined some_prev fr =
      let b = (h.elems x).prev in
      let k = o.tiled in
      let (lb, near, nb) = prev_live k x o.here some_prev in
      let wide = k.roomy b lb in
      let wide_x = k.roomy x o.here in
      let cells = joined-cells live lo hi h b x b k lb o.here near in
      let rest = joined-rest live lo hi h b x b k lb o.here near in
      record {
        joins = record {
          live' = without_elem x live;
          is_open = joined-IsOpen live lo hi h b x b k lb o.here near x o (inr (refl, refl)) fr;
          kept = λ a la ne busy. elim (Bool-cases (a == b)) [
            | inl at ↦
                let e : a ≡ b = (==_iff a b).0 at in
                absurd (ground (arith, ap (λ (t : ℕ). is_free (h.elems t).state) e))
            | inr away ↦ ground (arith, cells a)
          ];
          only = λ a la busy. ground (arith, cells a);
          own = λ _. fr;
          starts = omega arith;
          ends = ground (arith, cells b);
          behind = λ some_more.
              let m = (h.elems x).next in
              let to_m : ((join_elem b x (malloc_elem_free_list_remove b h)).elems b).next ≡ m =
                ground (arith, cells b) in
              let (lm, nm, pm) = next_live k x o.here (ground arith) in
              let busy = behind (ground arith) in rw to_m (ground (arith, cells m));
          same_bytes = rest.0;
          same_count = rest.1;
        };
        before = λ some_more.
            let c = (h.elems b).prev in
            let to_c : ((join_elem b x (malloc_elem_free_list_remove b h)).elems b).prev ≡ c =
              ground (arith, cells b, next_live k x o.here) in
            let (lc, near_c, nc) = prev_live k b lb (ground arith) in
            let wide_c = k.roomy c lc in
            let busy : is_free (h.elems c).state ≡ false =
              elim (Bool-cases (is_free (h.elems c).state)) [
                | inr in_use ↦ in_use
                | inl free_c ↦ absurd (
                    ground
                      (arith, o.merged c lc free_c, ap (λ (t : ℕ). is_free (h.elems t).state) nc))
              ] in
            rw to_c (ground (arith, cells c));
      }

  prev_unmoved :
      ((h.elems x).prev ≢ 0 → is_free (h.elems (h.elems x).prev).state ≡ false)
      → Merged live lo hi h x x h
  prev_unmoved before = record { joins = unmoved live lo hi h x o behind; before = before }

  pub join_prev-Merged : let (j, h') = join_prev x h in Merged live lo hi h x j h'
  unfolding join_prev
  join_prev-Merged = elim (Bool-cases ((h.elems x).prev == 0)) [
    | inl first ↦ rw (first, join_prev) (prev_unmoved (λ ne. absurd (ground arith)))
    | inr more ↦
        let ne : (h.elems x).prev ≢ 0 = ground arith in
        let (lb, near, nb) = prev_live o.tiled x o.here ne in
        let k = o.tiled in
        let top = k.top in
        let high = k.inside (h.elems x).prev lb in
        elim (Bool-cases (is_free (h.elems (h.elems x).prev).state)) [
          | inr busy ↦ rw (more, busy, join_prev) (prev_unmoved (λ _. busy))
          | inl fr ↦
              let adjacent : prev_elem_is_adjacent h x ≡ true = ground arith in
              rw (more, fr, adjacent, join_prev) (prev_joined ne fr)
        ]
  ]
