-- ===== src/Memory/Carve.antt =====
-- The steps of `malloc_elem_alloc` of malloc_elem.c on a valid heap, once the place is known.
use dpdk_code_modify.Base.{
  ℕ, ◌+◌, ◌-◌, ◌≤◌, ◌≡◌, ◌≢◌, refl, Bool, true, false, List, ◌∷◌, arith, ◌==◌, if◌then◌else◌, ap,
  ◌∙◌, dec_lt, Bool-cases, inl, inr,
}
use dpdk_code_modify.Memory.Types.{elem_free, elem_busy, is_free, Heap}
use dpdk_code_modify.Memory.Elem.{
  split_elem, set_state, malloc_elem_free_list_index, malloc_elem_free_list_insert,
  malloc_elem_free_list_remove, without,
}
use dpdk_code_modify.Memory.Inv.{IsTiled, IsListed, IsMerged, IsValid, member, member-without}
use dpdk_code_modify.Memory.Split.{
  with_elem, split_cells, split_cells_lem, split_elem-rest, fresh, split-IsTiled,
}

-- A heap with the same elements but for their states.
pub IsTiled-shape :
    {live : ℕ → Bool} {lo hi : ℕ} {h h' : Heap}
    → ((a : ℕ)
        → ((h'.elems a).prev ≡ (h.elems a).prev)
          × ((h'.elems a).next ≡ (h.elems a).next)
          × ((h'.elems a).size ≡ (h.elems a).size))
    → h'.first ≡ h.first
    → h'.last ≡ h.last
    → IsTiled live lo hi h
    → IsTiled live lo hi h'
IsTiled-shape {live} {lo} {hi} {h} {h'} same first last k = record {
  pos = k.pos;
  top = k.top;
  start = k.start;
  head = first ∙ k.head;
  front = (same lo).0 ∙ k.front;
  above = k.above;
  roomy = λ a l. ground (arith, same a, k.roomy a l);
  inside = λ a l. ground (arith, same a, k.inside a l);
  apart = λ a b la lb lt. ground (arith, same a, k.apart a b la lb lt);
  onward = λ a l more. ground (arith, same a, same (a + (h.elems a).size), k.onward a l);
  final = λ a l e. ground (arith, same a, last, k.final a l);
  back = λ a l lt. ground (arith, same a, same (h.elems a).prev, k.back a l lt);
}

module _ (live : ℕ → Bool) (lo hi : ℕ) (h : Heap) (v : IsValid live lo hi h) (e p : ℕ)
    (here : live e ≡ true) (free : is_free (h.elems e).state ≡ true) (left : e + 56 ≤ p)
    (right : p + 56 ≤ e + (h.elems e).size) where
  abbrev cut : Heap
  cut = split_elem e p (malloc_elem_free_list_remove e h)

  abbrev pub carved : Heap
  carved = malloc_elem_free_list_insert e (set_state p elem_busy cut)

  removed-IsTiled : IsTiled live lo hi (malloc_elem_free_list_remove e h)
  unfolding malloc_elem_free_list_remove
  removed-IsTiled = IsTiled-shape (λ a. (refl, refl, refl)) refl refl v.tiled

  cut-cells : (a : ℕ) → cut.elems a ≡ split_cells h e p a
  unfolding malloc_elem_free_list_remove
  cut-cells a =
      split_cells_lem live lo hi (malloc_elem_free_list_remove e h) removed-IsTiled e p here left
        right a

  pub cut-IsTiled : IsTiled (with_elem p live) lo hi cut
  unfolding malloc_elem_free_list_remove
  cut-IsTiled =
      let (f, l, fh, b, c) = split_elem-rest (malloc_elem_free_list_remove e h) e p in
      split-IsTiled live lo hi h v.tiled e p here left right cut cut-cells f l

  pub carved-cells :
      (a : ℕ)
      → carved.elems a ≡ (
          if p == a
          then record (split_cells h e p p) { state = elem_busy }
          else if e == a
          then record (split_cells h e p e) { state = elem_free }
          else split_cells h e p a)
  unfolding malloc_elem_free_list_insert set_state
  carved-cells a = ground (arith, cut-cells a, cut-cells e, cut-cells p)

  pub carved-rest :
      (carved.first ≡ cut.first)
      × (carved.last ≡ cut.last)
      × (carved.bytes ≡ h.bytes)
      × (carved.alloc_count ≡ h.alloc_count)
  unfolding malloc_elem_free_list_insert set_state malloc_elem_free_list_remove
  carved-rest =
      let (f, l, fh, b, c) = split_elem-rest (malloc_elem_free_list_remove e h) e p in
      (refl, refl, b, c)

  carved-lists :
      (i : ℕ)
      → carved.free_head i ≡ (
          if malloc_elem_free_list_index (p - e) == i
          then e ∷ without e (h.free_head i)
          else without e (h.free_head i))
  unfolding malloc_elem_free_list_insert set_state malloc_elem_free_list_remove
  carved-lists i =
      let (f, l, fh, b, c) = split_elem-rest (malloc_elem_free_list_remove e h) e p in
      ground (arith, cut-cells e, ap (λ (t : ℕ → List ℕ). t i) fh)

  pub new_one : live p ≡ false
  new_one = fresh live lo hi h v.tiled e p here left right

  carved-IsListed : IsListed (with_elem p live) carved
  unfolding member
  carved-IsListed = record {
    listed = λ i a lt.
        let f = new_one in
        elim (Bool-cases (p == a)) [
          | inl at ↦ ground (
            arith,
            carved-lists i,
            carved-cells a,
            member-without a e (h.free_head i),
            v.listed.listed i a lt,
          )
          | inr away ↦ rw (carved-lists i) (
              ground
                (arith, carved-cells a, member-without a e (h.free_head i), v.listed.listed i a lt))
        ];
  }

  -- The next element of an element is one.
  next_lem :
      (a : ℕ)
      → live a ≡ true
      → (h.elems a).next ≢ 0
      → ((h.elems a).next ≡ a + (h.elems a).size) × (live (h.elems a).next ≡ true)
  next_lem a la ne = elim (dec_lt (a + (h.elems a).size) hi) [
    | yes more ↦ let (ln, nn, pn) = v.tiled.onward a la more in (nn, rw nn ln)
    | no last ↦ let le = v.tiled.inside a la in absurd (ground (arith, v.tiled.final a la))
  ]

  carved-IsMerged : IsMerged (with_elem p live) carved
  carved-IsMerged = record {
    merged = λ a l fr some_next.
        let f = new_one in
        let k = v.tiled in
        elim (Bool-cases (p == a)) [
          | inl at ↦ absurd (ground (arith, carved-cells a))
          | inr away ↦ elim (Bool-cases (e == a)) [
            | inl here_e ↦ ground (arith, carved-cells a, carved-cells p)
            | inr other ↦
                let la : live a ≡ true = ground arith in
                let same : (carved.elems a).next ≡ (h.elems a).next =
                  ground (arith, carved-cells a) in
                let was : is_free (h.elems a).state ≡ true = ground (arith, carved-cells a) in
                let (full, next_live) = next_lem a la (ground arith) in
                rw same (
                  ground
                    (arith, carved-cells (h.elems a).next, v.merged.merged a la was (ground arith)))
          ]
        ];
  }

  pub carved-IsValid : IsValid (with_elem p live) lo hi carved
  carved-IsValid = record {
    tiled =
        IsTiled-shape {h = cut} (λ a. ground (arith, carved-cells a, cut-cells a)) carved-rest.0
          carved-rest.1 cut-IsTiled;
    listed = carved-IsListed;
    merged = carved-IsMerged;
  }

-- The counter and the bytes of the clients do not matter.
pub IsValid-count :
    {live : ℕ → Bool} {lo hi : ℕ} {h : Heap} (n : ℕ) (b : ℕ → ℕ)
    → IsValid live lo hi h
    → IsValid live lo hi (record h { alloc_count = n; bytes = b })
IsValid-count n b v = record {
  tiled = IsTiled-shape (λ a. (refl, refl, refl)) refl refl v.tiled;
  listed = record { listed = v.listed.listed };
  merged = record { merged = v.merged.merged };
}
