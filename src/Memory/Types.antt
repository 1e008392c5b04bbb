-- ===== src/Memory/Types.antt =====
-- The structures and macros of memory_manage/common.h, malloc_elem.h and malloc_heap.h.
use dpdk_code_modify.Base.{ℕ, ◌+◌, ◌*◌, ◌/◌, Bool, true, false, List, bit_and}
use dpdk_code_modify.Base.Words.{u64, add64, sub32, not64}

-- `enum elem_state`
pub data ElemState : Type 0 where
  elem_free elem_busy : ElemState

abbrev pub is_free : ElemState → Bool
is_free elem_free = true
is_free elem_busy = false

-- `struct malloc_elem`. A pointer is an address, NULL is 0; `heap` is the one heap there is, and the
-- links `free_list` are kept by the lists of the heap.
pub record Elem : Type 0 where
  pub prev : ℕ
  pub next : ℕ
  pub state : ElemState
  pub size : ℕ

-- `struct malloc_heap`, with the memory that it manages: the element at an address, and the bytes
-- that a client sees. A free list is the list of its elements, as <sys/queue.h> keeps it.
pub record Heap : Type 0 where
  pub elems : ℕ → Elem
  pub bytes : ℕ → ℕ
  pub free_head : ℕ → List ℕ
  pub first : ℕ
  pub last : ℕ
  pub alloc_count : ℕ
  pub total_size : ℕ

abbrev pub rte_heap_num_freelists : ℕ
rte_heap_num_freelists = 13

-- `sizeof(struct malloc_elem)`: five pointers, the state in eight bytes, the size. The attribute
-- `__rte_cache_aligned` is not defined, so it aligns nothing.
abbrev pub malloc_elem_header_len : ℕ
malloc_elem_header_len = 56

-- `sizeof(struct malloc_heap)`
abbrev pub sizeof_heap : ℕ
sizeof_heap = 13 * 8 + 2 * 8 + 2 * 4 + 8 + 32

-- `RTE_ALIGN_FLOOR(val, align)` on an address and an `unsigned`.
unfoldable pub align_floor : ℕ → ℕ → ℕ
align_floor val align = bit_and val (not64 (sub32 align 1))

-- `RTE_CACHE_LINE_ROUNDUP(size)`
abbrev pub cache_line_roundup : ℕ → ℕ
cache_line_roundup size = u64 (64 * (add64 size 63 / 64))
