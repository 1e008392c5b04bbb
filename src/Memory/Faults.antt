-- ===== src/Memory/Faults.antt =====
-- Where `heap_alloc` of malloc_heap.c goes wrong: an exact fit, and a size that wraps.
use dpdk_code_modify.Base.{
  ℕ, ◌+◌, ◌-◌, ◌^◌, ◌≤◌, ◌<◌, ◌≡◌, ◌≢◌, Bool, true, arith, ◌==◌, Bool-cases, inl, inr,
}
use dpdk_code_modify.Base.Words.{sub64, u32}
use dpdk_code_modify.Memory.Types.{is_free, Heap, cache_line_roundup}
use dpdk_code_modify.Memory.Elem.{
  elem_start_pt, split_elem, malloc_elem_alloc, malloc_elem_free_list_index,
  malloc_elem_free_list_insert, malloc_elem_free_list_remove, malloc_elem_init, set_prev, set_next,
  set_size, set_state,
}
use dpdk_code_modify.Memory.Inv.{member, IsValid}
use dpdk_code_modify.Memory.Heap.{heap_alloc}
use dpdk_code_modify.Memory.Alloc.{HasSlack, AllocOutcome, heap_alloc-AllocOutcome}

-- `split_elem` of an element at its own start leaves it without a size, and next to itself.
split_at_start :
    (h : Heap) (e : ℕ)
    → (h.elems e).next ≢ e
    → e ≢ 0
    → e < 2 ^ 64
    → let e' = (split_elem e e h).elems e in (e'.next ≡ e) × (e'.size ≡ 0)
unfolding split_elem malloc_elem_init set_prev set_next set_size
split_at_start h e apart real word =
    let none_left : sub64 e e ≡ 0 = omega arith in
    elim (Bool-cases ((h.elems e).next == 0)) [
      | inl last ↦ rw (none_left, last) (ground arith)
      | inr more ↦ rw (none_left, more) (ground arith)
    ]

-- Where the new element would start at the element itself (an exact fit; the element is not 0,
-- below 2 ^ 64 and not next to itself), `malloc_elem_alloc` returns an element that is free, of
-- size 0, next to itself, and still in the first free list.
pub malloc_elem_alloc_exact :
    (h : Heap) (e size align : ℕ)
    → elem_start_pt h e size align ≡ e
    → (h.elems e).next ≢ e
    → e ≢ 0
    → e < 2 ^ 64
    → let (p, h') = malloc_elem_alloc h e size align in
      (p ≡ e)
      × (is_free (h'.elems e).state ≡ true)
      × ((h'.elems e).next ≡ e)
      × ((h'.elems e).size ≡ 0)
      × (member e (h'.free_head 0) ≡ true)
unfolding malloc_elem_alloc malloc_elem_free_list_insert malloc_elem_free_list_remove set_state
    malloc_elem_free_list_index member
malloc_elem_alloc_exact h e size align exact apart real word =
    let (n, s) = split_at_start (malloc_elem_free_list_remove e h) e apart real word in
    rw exact (ground arith)

-- A size from 2 ^ 64 - 63 to 2 ^ 64 - 1 rounds to 0: on a valid heap above `2 ^ k + 56`, with room
-- for a header in every free element that can hold 0 bytes, and at an alignment that rounds to `2
-- ^ k` for k below 32, `heap_alloc` serves it as a request for 0 bytes.
pub heap_alloc_overflow :
    (live : ℕ → Bool) (lo hi : ℕ) (h : Heap) (size align k : ℕ)
    → IsValid live lo hi h
    → k < 32
    → 2 ^ k + 56 ≤ lo
    → HasSlack live h 0 (2 ^ k)
    → 2 ^ 64 - 63 ≤ size
    → size < 2 ^ 64
    → u32 (cache_line_roundup align) ≡ 2 ^ k
    → AllocOutcome live lo hi h 0 k (heap_alloc h size align)
heap_alloc_overflow live lo hi h size align k v small above slack high word aligned =
    heap_alloc-AllocOutcome live lo hi h v 0 k small above slack size align (omega arith)
      (omega arith) aligned
