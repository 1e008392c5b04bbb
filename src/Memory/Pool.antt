-- ===== src/Memory/Pool.antt =====
-- A heap of memory_manage of one element, and two calls of `heap_alloc` on it.
use dpdk_code_modify.Base.{
  ℕ, ◌^◌, ◌≡◌, refl, Bool, true, false, ◌&&◌, ◌||◌, not, [], ◌∷◌, arith, ◌==◌, if◌then◌else◌, ap,
  ◌∙◌, sym,
}
use dpdk_code_modify.Memory.Types.{elem_free, Heap, align_floor}
use dpdk_code_modify.Memory.Elem.{
  elem_start_pt, malloc_elem_free_list_index, clz, malloc_elem_alloc, malloc_elem_free_list_insert,
  malloc_elem_free_list_remove, without, split_elem, malloc_elem_init, set_prev, set_next, set_size,
  set_state,
}
use dpdk_code_modify.Memory.Heap.{heap_alloc, find_suitable_element, scan_list, scan_lists}
use dpdk_code_modify.Memory.Inv.{member}
use dpdk_code_modify.Memory.Client.{IsLoose, Reach, start, allocates, IsServed}

-- One free element of 4096 bytes.
abbrev pub pool : Heap
pool = record {
  elems = λ _. record { prev = 0; next = 0; state = elem_free; size = 4096 };
  free_head = λ i. if i == 2 then 0x100000 ∷ [] else [];
  first = 0x100000;
  last = 0x100000;
  bytes = λ _. 7;
  alloc_count = 0;
  total_size = 4096;
}

index_4096 : malloc_elem_free_list_index 4096 ≡ 2
unfolding malloc_elem_free_list_index clz
index_4096 = refl

pub pool-IsServed : IsServed 0x100000 0x101000 (λ _. false) pool
unfolding member
pool-IsServed = record {
  live = λ a. a == 0x100000;
  valid = record {
    tiled = record {
      pos = omega arith;
      top = omega arith;
      start = refl;
      head = refl;
      front = refl;
      above = λ a l. ground arith;
      roomy = λ a l. omega arith;
      inside = λ a l. ground arith;
      apart = λ a b la lb lt. absurd (ground arith);
      onward = λ a l more. absurd (ground arith);
      final = λ a l e. ground arith;
      back = λ a l lt. absurd (ground arith);
    };
    listed = record { listed = λ i a lt. ground (arith, index_4096) };
    merged = record { merged = λ a l fr more. absurd (more refl) };
  };
  owns = λ x. ground arith;
  above = λ p o. absurd (ground arith);
}

pool_place : elem_start_pt pool 0x100000 64 64 ≡ 0x100f88
unfolding elem_start_pt align_floor
pool_place = refl

pool-IsLoose : IsLoose pool 64 (2 ^ 6)
unfolding member
pool-IsLoose i e lt m fits =
    let at : e ≡ 0x100000 = ground arith in rw (at, pool_place) (omega arith)

abbrev pub pool2 : Heap
pool2 = (heap_alloc pool 50 20).1

pool2_place : elem_start_pt pool2 0x100000 64 64 ≡ 0x100f08
unfolding heap_alloc find_suitable_element scan_lists scan_list malloc_elem_free_list_index clz
    elem_start_pt align_floor malloc_elem_alloc malloc_elem_free_list_insert
    malloc_elem_free_list_remove without split_elem malloc_elem_init set_prev set_next set_size
    set_state
pool2_place = refl

pool2_lists : (i : ℕ) → pool2.free_head i ≡ (if i == 2 then 0x100000 ∷ [] else [])
unfolding heap_alloc find_suitable_element scan_lists scan_list malloc_elem_free_list_index clz
    elem_start_pt align_floor malloc_elem_alloc malloc_elem_free_list_insert
    malloc_elem_free_list_remove without split_elem malloc_elem_init set_prev set_next set_size
    set_state
pool2_lists i = ground arith

pool_pointer : (heap_alloc pool 50 20).0 ≡ 0x100fc0
unfolding heap_alloc find_suitable_element scan_lists scan_list malloc_elem_free_list_index clz
    elem_start_pt align_floor malloc_elem_alloc malloc_elem_free_list_insert
    malloc_elem_free_list_remove without split_elem malloc_elem_init set_prev set_next set_size
    set_state
pool_pointer = refl

pool2_pointer : (heap_alloc pool2 60 20).0 ≡ 0x100f40
unfolding heap_alloc find_suitable_element scan_lists scan_list malloc_elem_free_list_index clz
    elem_start_pt align_floor malloc_elem_alloc malloc_elem_free_list_insert
    malloc_elem_free_list_remove without split_elem malloc_elem_init set_prev set_next set_size
    set_state
pool2_pointer = refl

pool2-IsLoose : IsLoose pool2 64 (2 ^ 6)
unfolding member
pool2-IsLoose i e lt m fits =
    let here : member e (if i == 2 then 0x100000 ∷ [] else []) ≡ true =
      ap (member e) (sym (pool2_lists i)) ∙ m in
    let at : e ≡ 0x100000 = ground arith in rw (at, pool2_place) (omega arith)

-- The pointers of two calls.
abbrev pub both : ℕ → Bool
both q =
    not (q == 0) && (q == (heap_alloc pool2 60 20).0)
    || (not (q == 0) && (q == (heap_alloc pool 50 20).0) || false)

pub pool_calls : Reach 0x100000 pool both ((heap_alloc pool2 60 20).1)
pool_calls =
    allocates 60 20 6
      (allocates 50 20 6 start (omega arith) refl (omega arith) (omega arith) pool-IsLoose)
      (omega arith) refl (omega arith) (omega arith) pool2-IsLoose

pub both_first : both 0x100fc0 ≡ true
both_first = ground (arith, pool_pointer)

pub both_second : both 0x100f40 ≡ true
both_second = ground (arith, pool2_pointer)
