-- ===== src/Memory/Alloc.antt =====
-- `heap_alloc` of malloc_heap.c on a valid heap.
use dpdk_code_modify.Base.{
  ℕ, ◌+◌, ◌^◌, ◌≤◌, ◌<◌, ◌≡◌, ◌≢◌, refl, Bool, true, false, arith, ◌==◌, if◌then◌else◌, ap,
  ne→not-==,
}
use dpdk_code_modify.Base.Words.{u32, add32, add64}
use dpdk_code_modify.Memory.Types.{is_free, Heap, cache_line_roundup}
use dpdk_code_modify.Memory.Elem.{
  elem_start_pt, malloc_elem_can_hold, malloc_elem_alloc, malloc_elem_free_list_index,
}
use dpdk_code_modify.Memory.Heap.{heap_alloc}
use dpdk_code_modify.Memory.Inv.{IsValid, member}
use dpdk_code_modify.Memory.Index.{
  malloc_elem_free_list_index-InClass, malloc_elem_free_list_index_mono,
}
use dpdk_code_modify.Memory.Start.{
  FitsAt, StartOutcome, no_place, place, elem_start_pt-StartOutcome,
}
use dpdk_code_modify.Memory.Split.{with_elem}
use dpdk_code_modify.Memory.Carve.{
  carved-cells, carved-rest, carved-IsValid, new_one, IsValid-count,
}
use dpdk_code_modify.Memory.Search.{ListsOutcome, find_suitable_element-ListsOutcome}

-- The elements in use are where they were, of the same size.
pub record IsKept (live live' : ℕ → Bool) (h h' : Heap) : Type 0 where
  pub kept :
      (a : ℕ)
      → live a ≡ true
      → is_free (h.elems a).state ≡ false
      → (live' a ≡ true)
        × (is_free (h'.elems a).state ≡ false)
        × ((h'.elems a).size ≡ (h.elems a).size)
  pub only :
      (a : ℕ) → live a ≡ true → is_free (h.elems a).state ≡ true → is_free (h'.elems a).state ≡ true

-- What `heap_alloc` owes for data of `size2` bytes at a multiple of `2 ^ k`: NULL with the heap as it
-- was, when the data fits in no free element; or a new element in use, cut from the end of a free one,
-- with aligned data of that length, in a valid heap that keeps the other elements in use.
pub data AllocOutcome (live : ℕ → Bool) (lo hi : ℕ) (h : Heap) (size2 k : ℕ)
    : ℕ × Heap → Type 0 where
  refused :
      ((a d : ℕ) → live a ≡ true → is_free (h.elems a).state ≡ true → FitsAt h a size2 k d → ⊥)
      → AllocOutcome live lo hi h size2 k (0, h)
  given :
      {h' : Heap} (e p : ℕ)
      → live e ≡ true
      → is_free (h.elems e).state ≡ true
      → FitsAt h e size2 k (p + 56)
      → live p ≡ false
      → IsValid (with_elem p live) lo hi h'
      → is_free (h'.elems p).state ≡ false
      → p + (h'.elems p).size ≡ e + (h.elems e).size
      → IsKept live (with_elem p live) h h'
      → h'.alloc_count ≡ add32 h.alloc_count 1
      → AllocOutcome live lo hi h size2 k (p + 56, h')

-- Where the data would start in a free element, there is room for the header that stays in front.
abbrev pub HasSlack : (ℕ → Bool) → Heap → ℕ → ℕ → Type 0
HasSlack live h size2 align2 =
    (e : ℕ)
    → live e ≡ true
    → is_free (h.elems e).state ≡ true
    → elem_start_pt h e size2 align2 ≢ 0
    → e + 56 ≤ elem_start_pt h e size2 align2

module _ (live : ℕ → Bool) (lo hi : ℕ) (h : Heap) (v : IsValid live lo hi h) (size2 k : ℕ)
    (small : k < 32) (above : 2 ^ k + 56 ≤ lo) (slack : HasSlack live h size2 (2 ^ k)) where
  start_at : (e : ℕ) → live e ≡ true → StartOutcome h e size2 k (elem_start_pt h e size2 (2 ^ k))
  start_at e l =
      let low = v.tiled.above e l in
      let high = v.tiled.inside e l in
      let top = v.tiled.top in
      elem_start_pt-StartOutcome h e size2 k small (omega arith) (omega arith)

  -- The members of the free lists are elements.
  listed_live :
      (i a : ℕ)
      → i < 13
      → member a (h.free_head i) ≡ true
      → (live a ≡ true) × (is_free (h.elems a).state ≡ true)
  listed_live i a lt m = ground (arith, v.listed.listed i a lt)

  -- A free element that the search passes over holds no such data.
  refused_lem :
      ((i a : ℕ)
        → malloc_elem_free_list_index size2 ≤ i
        → i < 13
        → member a (h.free_head i) ≡ true
        → malloc_elem_can_hold h a size2 (2 ^ k) ≡ false)
      → (a d : ℕ) → live a ≡ true
      → is_free (h.elems a).state ≡ true
      → FitsAt h a size2 k d
      → ⊥
  refused_lem passed a d l fr fits =
      let high = v.tiled.inside a l in
      let top = v.tiled.top in
      let behind = fits.behind in
      let ends = fits.ends in
      let size = (h.elems a).size in
      let i = malloc_elem_free_list_index size in
      let lt : i < 13 = (malloc_elem_free_list_index-InClass size (omega arith)).there in
      let le = malloc_elem_free_list_index_mono size2 size (omega arith) (omega arith) in
      let in_list : member a (h.free_head i) ≡ true = ground (arith, v.listed.listed i a lt) in
      let none_there : elem_start_pt h a size2 (2 ^ k) ≡ 0 =
        ground (arith, passed i a le lt in_list) in
      go _ (start_at a l) none_there
    where
      go : (r : ℕ) → StartOutcome h a size2 k r → r ≡ 0 → ⊥
      go _ (no_place all) e = all d fits
      go _ (place p le at last) e = let low = v.tiled.above a l in omega arith

  -- What is made of the element that the search finds.
  taken : ℕ → ℕ × Heap
  taken e =
      let (p, h1) = malloc_elem_alloc h e size2 (2 ^ k) in
      (add64 p 56, record h1 { alloc_count = add32 h1.alloc_count 1 })

  taken-AllocOutcome :
      (e : ℕ)
      → live e ≡ true
      → is_free (h.elems e).state ≡ true
      → elem_start_pt h e size2 (2 ^ k) ≢ 0
      → AllocOutcome live lo hi h size2 k (taken e)
  unfolding taken malloc_elem_alloc
  taken-AllocOutcome e l fr some_place = go _ (start_at e l) refl
    where
      go :
          (p : ℕ)
          → StartOutcome h e size2 k p
          → elem_start_pt h e size2 (2 ^ k) ≡ p
          → AllocOutcome live lo hi h size2 k (taken e)
      go _ (no_place all) at = absurd (some_place at)
      go p (place _ le fits last) at =
          let room : e + 56 ≤ p = let far = slack e l fr some_place in omega arith in
          let ends = fits.ends in
          let right : p + 56 ≤ e + (h.elems e).size = omega arith in
          let high = v.tiled.inside e l in
          let top = v.tiled.top in
          let pointer : add64 p 56 ≡ p + 56 = omega arith in
          let cells = carved-cells live lo hi h v e p l fr room right in
          let new = new_one live lo hi h v e p l fr room right in
          rw (at, pointer)
            (given e p l fr fits new
              (IsValid-count _ _ (carved-IsValid live lo hi h v e p l fr room right))
              (ground (arith, cells p)) (ground (arith, cells p))
              (record {
                kept = λ a la busy. ground (arith, cells a);
                only = λ a la was. ground (arith, cells a);
              })
              (ap (λ (n : ℕ). add32 n 1) (carved-rest live lo hi h v e p l fr room right).3))

  search_step :
      (r : ℕ)
      → ListsOutcome h size2 (2 ^ k) (malloc_elem_free_list_index size2) r
      → AllocOutcome live lo hi h size2 k (if r == 0 then (0, h) else taken r)
  search_step _ (ListsOutcome.found e i ne le lt m fits) =
      let (l, fr) = listed_live i e lt m in
      rw (ne→not-== e 0 ne) (taken-AllocOutcome e l fr (ground arith))
  search_step _ (ListsOutcome.nowhere passed) = refused (refused_lem passed)

  pub heap_alloc-AllocOutcome :
      (size align : ℕ)
      → size ≢ 0
      → cache_line_roundup size ≡ size2
      → u32 (cache_line_roundup align) ≡ 2 ^ k
      → AllocOutcome live lo hi h size2 k (heap_alloc h size align)
  unfolding heap_alloc taken
  heap_alloc-AllocOutcome size align ne round2 align2 =
      let real : (i a : ℕ) → i < 13 → member a (h.free_head i) ≡ true → a ≢ 0 = λ i a lt m.
        let (l, fr) = listed_live i a lt m in
        let low = v.tiled.above a l in let pos = v.tiled.pos in omega arith in
      rw (ne→not-== size 0 ne, round2, align2)
        (search_step _ (find_suitable_element-ListsOutcome h size2 (2 ^ k) real))
