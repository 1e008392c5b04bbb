-- ===== src/Memory/Heap.antt =====
-- The interface of the heap: memory_manage/malloc_heap.c, and `malloc_elem_from_data`.
use dpdk_code_modify.Base.{
  ℕ, zero, suc, ◌+◌, true, false, ◌&&◌, Option, none, some, List, [], ◌∷◌, ltb, ◌==◌, if◌then◌else◌,
}
use dpdk_code_modify.Base.Words.{u32, add32, add64, sub64}
use dpdk_code_modify.Memory.Types.{
  Heap, rte_heap_num_freelists, malloc_elem_header_len, sizeof_heap, cache_line_roundup,
}
use dpdk_code_modify.Memory.Elem.{
  malloc_elem_init, malloc_elem_insert, malloc_elem_can_hold, malloc_elem_free_list_index,
  malloc_elem_free_list_insert, malloc_elem_alloc, malloc_elem_free,
}

-- `malloc_heap_create`. The parameters are the two calls of `malloc`: a block for the heap, with
-- whatever it holds, and the address of the area to manage.
unfoldable pub malloc_heap_create : (ℕ → Option Heap) → (ℕ → Option ℕ) → ℕ → ℕ → Option Heap
malloc_heap_create malloc_heap malloc_area fuel len = elim (malloc_heap sizeof_heap) [
  | none ↦ none
  | some heap ↦ elim (malloc_area len) [
    | none ↦ none
    | some start ↦
        elim (malloc_elem_insert fuel start
          (malloc_elem_init start len (record heap { alloc_count = 0; total_size = len }))) [
            | none ↦ none
            | some h ↦ some (malloc_elem_free_list_insert start h)
          ]
  ]
]

-- The inner loop of `find_suitable_element`, over one free list.
unfoldable pub scan_list : Heap → ℕ → ℕ → List ℕ → ℕ → ℕ
scan_list h size align [] alt_elem = alt_elem
scan_list h size align (elem ∷ rest) alt_elem =
    scan_list h size align rest
      (if malloc_elem_can_hold h elem size align && alt_elem == 0 then elem else alt_elem)

-- The outer loop, over the lists from `idx` on.
unfoldable pub scan_lists : ℕ → Heap → ℕ → ℕ → ℕ → ℕ → ℕ
scan_lists zero h size align idx alt_elem = alt_elem
scan_lists (suc fuel) h size align idx alt_elem = elim (ltb idx rte_heap_num_freelists) [
  | true ↦
      scan_lists fuel h size align (idx + 1) (scan_list h size align (h.free_head idx) alt_elem)
  | false ↦ alt_elem
]

-- `find_suitable_element`; the result 0 is NULL.
unfoldable pub find_suitable_element : Heap → ℕ → ℕ → ℕ
find_suitable_element h size align =
    scan_lists rte_heap_num_freelists h size align (malloc_elem_free_list_index size) 0

-- `heap_alloc`: the pointer and the heap. `align` goes on as an `unsigned`.
unfoldable pub heap_alloc : Heap → ℕ → ℕ → ℕ × Heap
heap_alloc h size align =
    let size2 = cache_line_roundup size in
    let align2 = u32 (cache_line_roundup align) in
    if size == 0
    then (0, h)
    else (let elem = find_suitable_element h size2 align2 in
        if elem == 0
        then (0, h)
        else (let (new_elem, h1) = malloc_elem_alloc h elem size2 align2 in
            (
              add64 new_elem malloc_elem_header_len,
              record h1 { alloc_count = add32 h1.alloc_count 1 },
            )))

-- `malloc_elem_from_data`
abbrev pub malloc_elem_from_data : ℕ → ℕ
malloc_elem_from_data ptr = if ptr == 0 then 0 else sub64 ptr malloc_elem_header_len

-- `heap_free`
unfoldable pub heap_free : Heap → ℕ → Heap
heap_free h ptr =
    let elem = malloc_elem_from_data ptr in if elem == 0 then h else (malloc_elem_free h elem).1
