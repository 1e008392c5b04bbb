-- ===== src/Memory/Create.antt =====
-- `malloc_heap_create` of malloc_heap.c.
use dpdk_code_modify.Base.{
  ℕ, ◌+◌, ◌^◌, ◌≤◌, ◌<◌, ◌≡◌, refl, Bool, Option, some, [], ◌∷◌, arith, ◌==◌, if◌then◌else◌,
  ==_self,
}
use dpdk_code_modify.Memory.Types.{elem_free, Heap, sizeof_heap}
use dpdk_code_modify.Memory.Elem.{
  malloc_elem_init, malloc_elem_insert, link_between, malloc_elem_free_list_index,
  malloc_elem_free_list_insert, set_prev, set_next, set_state,
}
use dpdk_code_modify.Memory.Heap.{malloc_heap_create}
use dpdk_code_modify.Memory.Inv.{IsValid, member}

-- A block for the heap whose pointers are NULL.
pub record IsCleared (h : Heap) : Type 0 where
  pub no_first : h.first ≡ 0
  pub no_last : h.last ≡ 0
  pub no_free : (i : ℕ) → i < 13 → h.free_head i ≡ []

module _ (block : Heap) (clear : IsCleared block) (start len : ℕ) where
  abbrev one : ℕ → Bool
  one a = a == start

  abbrev chained : Heap
  chained =
      link_between 0 start 0
        (record (malloc_elem_init start len (record block { alloc_count = 0; total_size = len })) {
          first = start;
          last = start;
        })

  -- The heap that `malloc_heap_create` makes of a cleared block.
  abbrev made : Heap
  made = malloc_elem_free_list_insert start chained

  made-cells :
      (a : ℕ)
      → made.elems a ≡ (
          if start == a
          then record { prev = 0; next = 0; state = elem_free; size = len }
          else block.elems a)
  unfolding malloc_elem_free_list_insert set_state link_between set_prev set_next malloc_elem_init
  made-cells a = ground arith

  made-lists :
      (i : ℕ)
      → made.free_head i ≡ (
          if malloc_elem_free_list_index len == i
          then start ∷ block.free_head i
          else block.free_head i)
  unfolding malloc_elem_free_list_insert set_state link_between set_prev set_next malloc_elem_init
  made-lists i = ground arith

  made-ends : (made.first ≡ start) × (made.last ≡ start) × (made.alloc_count ≡ 0)
  unfolding malloc_elem_free_list_insert set_state link_between set_prev set_next malloc_elem_init
  made-ends = (refl, refl, refl)

  made-IsValid : 0 < start → 56 ≤ len → start + len < 2 ^ 64 → IsValid one start (start + len) made
  unfolding member
  made-IsValid pos wide top = record {
    tiled = record {
      pos = pos;
      top = top;
      start = ==_self start;
      head = made-ends.0;
      front = ground (arith, made-cells start);
      above = λ a l. ground arith;
      roomy = λ a l. ground (arith, made-cells a);
      inside = λ a l. ground (arith, made-cells a);
      apart = λ a b la lb lt. absurd (ground arith);
      onward = λ a l more. absurd (ground (arith, made-cells a));
      final = λ a l e. ground (arith, made-cells a, made-ends);
      back = λ a l lt. absurd (ground arith);
    };
    listed = record {
      listed = λ i a lt. ground (arith, clear.no_free i lt, made-lists i, made-cells a);
    };
    merged = record { merged = λ a l fr some_next. absurd (ground (arith, made-cells a)) };
  }

  inserted :
      (fuel : ℕ)
      → malloc_elem_insert fuel start
          (malloc_elem_init start len (record block { alloc_count = 0; total_size = len }))
        ≡ some chained
  unfolding malloc_elem_insert malloc_elem_init
  inserted fuel = rw (clear.no_first, clear.no_last) refl

-- When both calls of `malloc` succeed, the block of the heap came with NULL pointers, and the area
-- has at least 56 bytes, does not start at 0 and ends below 2 ^ 64, `malloc_heap_create` returns a
-- valid heap of one element over the area, with no allocation counted.
pub malloc_heap_create-IsValid :
    (malloc_heap : ℕ → Option Heap) (malloc_area : ℕ → Option ℕ) (fuel len : ℕ) {block : Heap}
    {start : ℕ}
    → malloc_heap sizeof_heap ≡ some block
    → malloc_area len ≡ some start
    → IsCleared block
    → 0 < start
    → 56 ≤ len
    → start + len < 2 ^ 64
    → (h : Heap) × (malloc_heap_create malloc_heap malloc_area fuel len ≡ some h)
      × IsValid (λ a. a == start) start (start + len) h
      × (h.alloc_count ≡ 0)
unfolding malloc_heap_create
malloc_heap_create-IsValid malloc_heap malloc_area fuel len {block} {start} got area clear pos wide
      top =
    (
      made block clear start len,
      rw (malloc_heap_create, got, area, inserted block clear start len fuel) refl,
      made-IsValid block clear start len pos wide top,
      (made-ends block clear start len).2,
    )
