-- ===== src/Memory/Tests.antt =====
-- Runs of the heap of memory_manage on concrete heaps.
use dpdk_code_modify.Base.{
  ℕ, ◌+◌, ◌-◌, ◌^◌, ◌≤◌, ◌<◌, ◌≡◌, ◌≢◌, refl, Bool, true, ◌||◌, some, [], ◌∷◌, arith, ◌==◌,
  if◌then◌else◌,
}
use dpdk_code_modify.Memory.Types.{elem_free, elem_busy, is_free, Heap, align_floor}
use dpdk_code_modify.Memory.Insert.{IsBetween, IsInserted, malloc_elem_insert-IsInserted}
use dpdk_code_modify.Memory.Elem.{
  malloc_elem_insert, elem_start_pt, malloc_elem_free_list_index, clz, malloc_elem_alloc,
}
use dpdk_code_modify.Memory.Heap.{
  malloc_heap_create, heap_alloc, heap_free, find_suitable_element, scan_list, scan_lists,
}
use dpdk_code_modify.Memory.Index.{malloc_elem_free_list_index_mono}
use dpdk_code_modify.Memory.Start.{StartOutcome, elem_start_pt-StartOutcome}
use dpdk_code_modify.Memory.Inv.{IsTiled, IsValid, member}
use dpdk_code_modify.Memory.Alloc.{HasSlack, AllocOutcome}
use dpdk_code_modify.Memory.Free.{FreedWell, heap_free-FreedWell}
use dpdk_code_modify.Memory.Round.{IsBack, heap_free-heap_alloc}
use dpdk_code_modify.Memory.Client.{IsServed, Reach-IsServed, owned_apart, data_len}
use dpdk_code_modify.Memory.Faults.{malloc_elem_alloc_exact, heap_alloc_overflow}
use dpdk_code_modify.Memory.Pool.{pool2, both, pool-IsServed, pool_calls, both_first, both_second}
use dpdk_code_modify.Memory.Create.{IsCleared, malloc_heap_create-IsValid}

-- A free element of 1024 bytes, and behind it one in use of the same size.
abbrev two : Heap
two = record {
  elems = λ a.
      if a == 0x100000
      then record { prev = 0; next = 0x100400; state = elem_free; size = 1024 }
      else record { prev = 0x100000; next = 0; state = elem_busy; size = 1024 };
  bytes = λ _. 7;
  free_head = λ i. if i == 1 then 0x100000 ∷ [] else [];
  first = 0x100000;
  last = 0x100400;
  alloc_count = 1;
  total_size = 2048;
}

abbrev two_live : ℕ → Bool
two_live a = a == 0x100000 || a == 0x100400

index_1024 : malloc_elem_free_list_index 1024 ≡ 1
unfolding malloc_elem_free_list_index clz
index_1024 = refl

two-IsTiled : IsTiled two_live 0x100000 0x100800 two
two-IsTiled = record {
  pos = omega arith;
  top = omega arith;
  start = refl;
  head = refl;
  front = refl;
  above = λ a l. ground arith;
  roomy = λ a l. ground arith;
  inside = λ a l. ground arith;
  apart = λ a b la lb lt. ground arith;
  onward = λ a l more. ground arith;
  final = λ a l e. ground arith;
  back = λ a l lt. ground arith;
}

two-IsValid : IsValid two_live 0x100000 0x100800 two
unfolding member
two-IsValid = record {
  tiled = two-IsTiled;
  listed = record { listed = λ i a lt. ground (arith, index_1024) };
  merged = record { merged = λ a l fr more. ground arith };
}

two_real : (i a : ℕ) → i < 13 → member a (two.free_head i) ≡ true → a ≢ 0
unfolding member
two_real i a lt m = ground arith

-- The only free element of `two` holds 64 bytes at the address 0x1003c0, behind a header at 0x100388.
two_place : elem_start_pt two 0x100000 64 64 ≡ 0x100388
unfolding elem_start_pt align_floor
two_place = refl

two_taken : (heap_alloc two 50 20).0 ≡ 0x1003c0
unfolding heap_alloc find_suitable_element scan_lists scan_list malloc_elem_free_list_index clz
    elem_start_pt align_floor malloc_elem_alloc
two_taken = refl

two-HasSlack : HasSlack two_live two 64 (2 ^ 6)
two-HasSlack e l fr fits = let at : e ≡ 0x100000 = ground arith in rw (at, two_place) (omega arith)

malloc_elem_free_list_index_mono_example :
    malloc_elem_free_list_index 300 ≤ malloc_elem_free_list_index 5000
malloc_elem_free_list_index_mono_example =
    malloc_elem_free_list_index_mono 300 5000 (omega arith) (omega arith)

elem_start_pt-StartOutcome_example :
    StartOutcome two 0x100000 64 6 (elem_start_pt two 0x100000 64 (2 ^ 6))
elem_start_pt-StartOutcome_example =
    elem_start_pt-StartOutcome two 0x100000 64 6 (omega arith) (omega arith) (omega arith)

heap_free-FreedWell_example :
    FreedWell two_live 0x100000 0x100800 two 0x100400 (heap_free two (0x100400 + 56))
heap_free-FreedWell_example =
    heap_free-FreedWell two_live 0x100000 0x100800 two two-IsValid 0x100400 refl refl

heap_free-heap_alloc_example :
    let (p, h') = heap_alloc two 50 20 in IsBack two_live 0x100000 0x100800 two (heap_free h' p)
heap_free-heap_alloc_example =
    heap_free-heap_alloc two_live 0x100000 0x100800 two 50 20 6 two-IsValid (omega arith)
      (omega arith) (omega arith) two-HasSlack (omega arith) refl

-- A block for a heap, its pointers NULL.
abbrev blank : Heap
blank = record {
  elems = λ _. record { prev = 0; next = 0; state = elem_busy; size = 0 };
  bytes = λ _. 7;
  free_head = λ _. [];
  first = 0;
  last = 0;
  alloc_count = 5;
  total_size = 6;
}

blank-IsCleared : IsCleared blank
blank-IsCleared = record { no_first = refl; no_last = refl; no_free = λ i lt. refl }

malloc_heap_create-IsValid_example :
    (h : Heap) × (malloc_heap_create (λ _. some blank) (λ _. some 0x100000) 0 4096 ≡ some h)
    × IsValid (λ a. a == 0x100000) 0x100000 (0x100000 + 4096) h
    × (h.alloc_count ≡ 0)
malloc_heap_create-IsValid_example =
    malloc_heap_create-IsValid (λ _. some blank) (λ _. some 0x100000) 0 4096 refl refl
      blank-IsCleared (omega arith) (omega arith) (omega arith)

-- An element whose data of 64 bytes starts at a multiple of 64.
abbrev exact : Heap
exact = record blank {
  elems = λ _. record { prev = 0; next = 0; state = elem_free; size = 120 };
  free_head = λ i. if i == 0 then 0x100008 ∷ [] else [];
}

exact_place : elem_start_pt exact 0x100008 64 64 ≡ 0x100008
unfolding elem_start_pt align_floor
exact_place = refl

malloc_elem_alloc_exact_example :
    let (p, h') = malloc_elem_alloc exact 0x100008 64 64 in
    (p ≡ 0x100008)
    × (is_free (h'.elems 0x100008).state ≡ true)
    × ((h'.elems 0x100008).next ≡ 0x100008)
    × ((h'.elems 0x100008).size ≡ 0)
    × (member 0x100008 (h'.free_head 0) ≡ true)
malloc_elem_alloc_exact_example =
    malloc_elem_alloc_exact exact 0x100008 64 64 exact_place (omega arith) (omega arith)
      (omega arith)

two_place_0 : elem_start_pt two 0x100000 0 64 ≡ 0x1003c8
unfolding elem_start_pt align_floor
two_place_0 = refl

two-HasSlack_0 : HasSlack two_live two 0 (2 ^ 6)
two-HasSlack_0 e l fr fits =
    let at : e ≡ 0x100000 = ground arith in rw (at, two_place_0) (omega arith)

heap_alloc_overflow_example :
    AllocOutcome two_live 0x100000 0x100800 two 0 6 (heap_alloc two (2 ^ 64 - 1) 20)
heap_alloc_overflow_example =
    heap_alloc_overflow two_live 0x100000 0x100800 two (2 ^ 64 - 1) 20 6 two-IsValid (omega arith)
      (omega arith) two-HasSlack_0 (omega arith) (omega arith) refl

Reach-IsServed_example : IsServed 0x100000 0x101000 both ((heap_alloc pool2 60 20).1)
Reach-IsServed_example = Reach-IsServed pool-IsServed pool_calls

owned_apart_example :
    let h = (heap_alloc pool2 60 20).1 in
    (0x100000 + 56 ≤ 0x100f40)
    × (0x100f40 + data_len h 0x100f40 + 56 ≤ 0x100fc0)
    × (0x100fc0 + data_len h 0x100fc0 ≤ 0x101000)
owned_apart_example =
    owned_apart pool-IsServed pool_calls 0x100f40 0x100fc0 both_second both_first (omega arith)

malloc_elem_insert-IsInserted_example :
    (p n : ℕ) × (h' : Heap) × (malloc_elem_insert 0x100800 0x100100 two ≡ some h')
    × IsBetween two_live two 0x100100 p n
    × IsInserted two 0x100100 p n h'
malloc_elem_insert-IsInserted_example =
    malloc_elem_insert-IsInserted two_live 0x100000 0x100800 two two-IsTiled refl 0x100100
      (omega arith) (omega arith) refl 0x100800 (omega arith)
