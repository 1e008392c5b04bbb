-- ===== src/Memory/Elem.antt =====
-- The elements of the heap: memory_manage/malloc_elem.c.
use dpdk_code_modify.Base.{
  ℕ, zero, suc, ◌+◌, ◌-◌, ◌/◌, ◌^◌, Bool, true, false, not, ◌&&◌, ◌||◌, Option, none, some, List,
  [], ◌∷◌, ltb, leb, ◌==◌, if◌then◌else◌, store,
}
use dpdk_code_modify.Base.Words.{add64, sub64, sub32}
use dpdk_code_modify.Base.Loops.{within}
use dpdk_code_modify.Memory.Types.{
  ElemState, elem_free, elem_busy, is_free, Heap, rte_heap_num_freelists, malloc_elem_header_len,
  align_floor,
}

-- Stores to one field of the element at an address.
unfoldable pub set_prev : ℕ → ℕ → Heap → Heap
set_prev p v h = record h { elems = store h.elems p (record (h.elems p) { prev = v }) }

unfoldable pub set_next : ℕ → ℕ → Heap → Heap
set_next p v h = record h { elems = store h.elems p (record (h.elems p) { next = v }) }

unfoldable pub set_state : ℕ → ElemState → Heap → Heap
set_state p v h = record h { elems = store h.elems p (record (h.elems p) { state = v }) }

unfoldable pub set_size : ℕ → ℕ → Heap → Heap
set_size p v h = record h { elems = store h.elems p (record (h.elems p) { size = v }) }

-- `malloc_elem_init`
unfoldable pub malloc_elem_init : ℕ → ℕ → Heap → Heap
malloc_elem_init elem size h = record h {
  elems = store h.elems elem (record { prev = 0; next = 0; state = elem_free; size = size });
}

-- `while (prev_elem->next < elem) prev_elem = prev_elem->next;`
unfoldable pub walk_up : ℕ → Heap → ℕ → ℕ → Option ℕ
walk_up zero h prev_elem elem = none
walk_up (suc fuel) h prev_elem elem = elim (ltb (h.elems prev_elem).next elem) [
  | true ↦ walk_up fuel h (h.elems prev_elem).next elem
  | false ↦ some prev_elem
]

-- `while (next_elem->prev > elem) next_elem = next_elem->prev;`
unfoldable pub walk_down : ℕ → Heap → ℕ → ℕ → Option ℕ
walk_down zero h next_elem elem = none
walk_down (suc fuel) h next_elem elem = elim (ltb elem (h.elems next_elem).prev) [
  | true ↦ walk_down fuel h (h.elems next_elem).prev elem
  | false ↦ some next_elem
]

-- The last lines of `malloc_elem_insert`.
unfoldable pub link_between : ℕ → ℕ → ℕ → Heap → Heap
link_between prev_elem elem next_elem h =
    let h1 = set_next elem next_elem (set_prev elem prev_elem h) in
    let h2 = if prev_elem == 0 then h1 else set_next prev_elem elem h1 in
    if next_elem == 0 then h2 else set_prev next_elem elem h2

-- The branch of `malloc_elem_insert` for an element between the first and the last.
unfoldable pub insert_inside : ℕ → ℕ → Heap → Option Heap
insert_inside fuel elem h =
    if ltb (sub64 elem h.first) (sub64 h.last elem)
    then elim (walk_up fuel h h.first elem) [
      | none ↦ none
      | some prev_elem ↦ some (link_between prev_elem elem (h.elems prev_elem).next h)
    ]
    else elim (walk_down fuel h h.last elem) [
      | none ↦ none
      | some next_elem ↦ some (link_between (h.elems next_elem).prev elem next_elem h)
    ]

-- `malloc_elem_insert`; `none` is a walk of more than `fuel` rounds.
unfoldable pub malloc_elem_insert : ℕ → ℕ → Heap → Option Heap
malloc_elem_insert fuel elem h =
    let no_first = h.first == 0 in
    let no_last = h.last == 0 in
    let inside = insert_inside fuel elem h in
    if (no_first && not no_last) || (not no_first && no_last)
    then some h
    else if no_first && no_last
    then some (link_between 0 elem 0 (record h { first = elem; last = elem }))
    else if ltb elem h.first
    then some (link_between 0 elem h.first (record h { first = elem }))
    else if ltb h.last elem
    then some (link_between h.last elem 0 (record h { last = elem }))
    else inside

-- `elem_start_pt`; the loop is left in its first round.
unfoldable pub elem_start_pt : Heap → ℕ → ℕ → ℕ → ℕ
elem_start_pt h elem size align =
    let elem_size = (h.elems elem).size in
    if leb size elem_size
    then (let end_pt = add64 elem elem_size in
        let new_data_start = align_floor (sub64 end_pt size) align in
        let new_elem_start = sub64 new_data_start malloc_elem_header_len in
        if ltb new_elem_start elem then 0 else new_elem_start)
    else 0

-- `malloc_elem_can_hold`
abbrev pub malloc_elem_can_hold : Heap → ℕ → ℕ → ℕ → Bool
malloc_elem_can_hold h elem size align = not (elem_start_pt h elem size align == 0)

-- `split_elem`
unfoldable pub split_elem : ℕ → ℕ → Heap → Heap
split_elem elem split_pt h =
    let next_elem = (h.elems elem).next in
    let old_elem_size = sub64 split_pt elem in
    let new_elem_size = sub64 (h.elems elem).size old_elem_size in
    let h1 = malloc_elem_init split_pt new_elem_size h in
    let h2 = set_next split_pt next_elem (set_prev split_pt elem h1) in
    let h3 =
      if next_elem == 0 then record h2 { last = split_pt } else set_prev next_elem split_pt h2 in
    set_size elem old_elem_size (set_next elem split_pt h3)

-- `remove_elem`
unfoldable pub remove_elem : ℕ → Heap → Heap
remove_elem elem h =
    let next = (h.elems elem).next in
    let prev = (h.elems elem).prev in
    let h1 = if next == 0 then record h { last = prev } else set_prev next prev h in
    let h2 = if prev == 0 then record h1 { first = next } else set_next prev next h1 in
    set_next elem 0 (set_prev elem 0 h2)

-- `next_elem_is_adjacent` and `prev_elem_is_adjacent`
abbrev pub next_elem_is_adjacent : Heap → ℕ → Bool
next_elem_is_adjacent h elem = (h.elems elem).next == add64 elem (h.elems elem).size

abbrev pub prev_elem_is_adjacent : Heap → ℕ → Bool
prev_elem_is_adjacent h elem =
    let prev = (h.elems elem).prev in elem == add64 prev (h.elems prev).size

-- `__builtin_clzl` of a positive number: how many of the upper `n` bits come before the first one.
unfoldable pub clz : ℕ → ℕ → ℕ
clz zero x = 0
clz (suc n) x = let rest = clz n x in if leb (2 ^ n) x then 0 else suc rest

-- `malloc_elem_free_list_index`
unfoldable pub malloc_elem_free_list_index : ℕ → ℕ
malloc_elem_free_list_index size =
    let log2 = sub64 64 (clz 64 (sub64 size 1)) in
    let index = (log2 - 8 + 2 - 1) / 2 in
    if leb size (2 ^ 8)
    then 0
    else if leb index (rte_heap_num_freelists - 1)
    then index
    else rte_heap_num_freelists - 1

-- `malloc_elem_free_list_insert`, with `LIST_INSERT_HEAD`.
unfoldable pub malloc_elem_free_list_insert : ℕ → Heap → Heap
malloc_elem_free_list_insert elem h =
    let idx = malloc_elem_free_list_index (h.elems elem).size in
    let h1 = set_state elem elem_free h in
    record h1 { free_head = store h1.free_head idx (elem ∷ h1.free_head idx) }

-- A list without an element.
unfoldable pub without : ℕ → List ℕ → List ℕ
without p [] = []
without p (q ∷ qs) = let rest = without p qs in if p == q then rest else q ∷ rest

-- `malloc_elem_free_list_remove`: `LIST_REMOVE` takes an element out of the list that it is in.
unfoldable pub malloc_elem_free_list_remove : ℕ → Heap → Heap
malloc_elem_free_list_remove elem h = record h { free_head = λ i. without elem (h.free_head i) }

-- `malloc_elem_alloc`: the new element and the heap.
unfoldable pub malloc_elem_alloc : Heap → ℕ → ℕ → ℕ → ℕ × Heap
malloc_elem_alloc h elem size align =
    let new_elem = elem_start_pt h elem size align in
    let h1 = split_elem elem new_elem (malloc_elem_free_list_remove elem h) in
    (new_elem, malloc_elem_free_list_insert elem (set_state new_elem elem_busy h1))

-- `join_elem`
unfoldable pub join_elem : ℕ → ℕ → Heap → Heap
join_elem elem1 elem2 h =
    let next = (h.elems elem2).next in
    let h1 = set_size elem1 (add64 (h.elems elem1).size (h.elems elem2).size) h in
    let h2 = if next == 0 then record h1 { last = elem1 } else set_prev next elem1 h1 in
    set_next elem1 next h2

-- The first half of `malloc_elem_join_adjacent_free`: the next element.
unfoldable pub join_next : ℕ → Heap → Heap
join_next elem h =
    let next = (h.elems elem).next in
    if not (next == 0) && is_free (h.elems next).state && next_elem_is_adjacent h elem
    then join_elem elem next (malloc_elem_free_list_remove next h)
    else h

-- The second half: the previous element, which then stands for both.
unfoldable pub join_prev : ℕ → Heap → ℕ × Heap
join_prev elem h =
    let prev = (h.elems elem).prev in
    if not (prev == 0) && is_free (h.elems prev).state && prev_elem_is_adjacent h elem
    then (prev, join_elem prev elem (malloc_elem_free_list_remove prev h))
    else (elem, h)

-- `malloc_elem_join_adjacent_free`
unfoldable pub malloc_elem_join_adjacent_free : ℕ → Heap → ℕ × Heap
malloc_elem_join_adjacent_free elem h = join_prev elem (join_next elem h)

-- `memset(ptr, 0, len)` on the bytes.
abbrev pub clear : ℕ → ℕ → (ℕ → ℕ) → ℕ → ℕ
clear ptr len b j = if within ptr len j then 0 else b j

-- `malloc_elem_free`: the free element and the heap.
unfoldable pub malloc_elem_free : Heap → ℕ → ℕ × Heap
malloc_elem_free h elem =
    let ptr = add64 elem malloc_elem_header_len in
    let data_len = sub64 (h.elems elem).size malloc_elem_header_len in
    let (joined, h1) = malloc_elem_join_adjacent_free elem h in
    let h2 = malloc_elem_free_list_insert joined h1 in
    (
      joined,
      record h2 { alloc_count = sub32 h2.alloc_count 1; bytes = clear ptr data_len h2.bytes },
    )
