-- ===== src/Memory/Search.antt =====
-- `find_suitable_element` of malloc_heap.c.
use dpdk_code_modify.Base.{
  ℕ, zero, suc, ◌+◌, ◌≤◌, ◌<◌, ◌≡◌, ◌≢◌, refl, Bool, true, false, ◌||◌, List, [], ◌∷◌, arith, ◌==◌,
  Bool-cases, inl, inr, dec_lt, lt→ltb, le→not-ltb, ==_iff,
}
use dpdk_code_modify.Memory.Types.{Heap}
use dpdk_code_modify.Memory.Elem.{malloc_elem_can_hold, malloc_elem_free_list_index}
use dpdk_code_modify.Memory.Heap.{scan_list, scan_lists, find_suitable_element}
use dpdk_code_modify.Memory.Inv.{member}

module _ (h : Heap) (size align : ℕ) where
  abbrev holds : ℕ → Bool
  holds a = malloc_elem_can_hold h a size align

  -- Once an element is found, the loops only run to their ends.
  scan_list_kept : (xs : List ℕ) (alt : ℕ) → alt ≢ 0 → scan_list h size align xs alt ≡ alt
  unfolding scan_list
  scan_list_kept [] alt ne = refl
  scan_list_kept (x ∷ xs) alt ne = ground (arith, scan_list_kept xs alt ne)

  scan_lists_kept : (fuel idx alt : ℕ) → alt ≢ 0 → scan_lists fuel h size align idx alt ≡ alt
  unfolding scan_lists
  scan_lists_kept zero idx alt ne = refl
  scan_lists_kept (suc fuel) idx alt ne =
      ground (arith, scan_list_kept (h.free_head idx) alt ne, scan_lists_kept fuel (idx + 1) alt ne)

  -- What a search over the elements with `among` says.
  data SearchOutcome (among : ℕ → Bool) : ℕ → Type 0 where
    found : (e : ℕ) → e ≢ 0 → among e ≡ true → holds e ≡ true → SearchOutcome among e
    nowhere : ((a : ℕ) → among a ≡ true → holds a ≡ false) → SearchOutcome among 0

  scan_list-SearchOutcome :
      (xs : List ℕ)
      → ((a : ℕ) → member a xs ≡ true → a ≢ 0)
      → SearchOutcome (λ a. member a xs) (scan_list h size align xs 0)
  unfolding scan_list member
  scan_list-SearchOutcome [] real = nowhere (λ a m. absurd (ground arith))
  scan_list-SearchOutcome (x ∷ xs) real = elim (Bool-cases (holds x)) [
    | inl fits ↦
        let ne : x ≢ 0 = real x (ground arith) in
        rw (fits, scan_list_kept xs x ne) (found x ne (ground arith) fits)
    | inr misses ↦
        rw misses (go misses _ (scan_list-SearchOutcome xs (λ a m. real a (ground arith))))
  ]
    where
      go :
          holds x ≡ false
          → (r : ℕ) → SearchOutcome (λ a. member a xs) r
          → SearchOutcome (λ a. a == x || member a xs) r
      go misses _ (found e ne m fits) = found e ne (ground arith) fits
      go misses _ (nowhere all) = nowhere (λ a m. elim (Bool-cases (a == x)) [
        | inl at ↦ let e = (==_iff a x).0 at in rw e misses
        | inr away ↦ all a (ground arith)
      ])

  -- What a search over the free lists from `from` on says.
  pub data ListsOutcome (from : ℕ) : ℕ → Type 0 where
    found :
        (e i : ℕ)
        → e ≢ 0
        → from ≤ i
        → i < 13
        → member e (h.free_head i) ≡ true
        → malloc_elem_can_hold h e size align ≡ true
        → ListsOutcome from e
    nowhere :
        ((i a : ℕ)
          → from ≤ i
          → i < 13
          → member a (h.free_head i) ≡ true
          → malloc_elem_can_hold h a size align ≡ false)
        → ListsOutcome from 0

  module _ (real : (i a : ℕ) → i < 13 → member a (h.free_head i) ≡ true → a ≢ 0) where
    lists_from :
        (fuel idx : ℕ) → 13 ≤ idx + fuel → ListsOutcome idx (scan_lists fuel h size align idx 0)
    unfolding scan_lists
    lists_from zero idx enough = ListsOutcome.nowhere (λ i a le lt. absurd (omega arith))
    lists_from (suc fuel) idx enough = elim (dec_lt idx 13) [
      | no over ↦
          rw (le→not-ltb idx 13 (omega arith), scan_lists)
            (ListsOutcome.nowhere (λ i a le lt. absurd (omega arith)))
      | yes more ↦
          rw (lt→ltb idx 13 more, scan_lists)
            (go more (lists_from fuel (idx + 1) (omega arith)) _
              (scan_list-SearchOutcome (h.free_head idx) (λ a. real idx a more)))
    ]
      where
        later :
            (r : ℕ)
            → ((a : ℕ) → member a (h.free_head idx) ≡ true → holds a ≡ false)
            → ListsOutcome (idx + 1) r
            → ListsOutcome idx r
        later _ none_here (ListsOutcome.found e i ne le lt m fits) =
            ListsOutcome.found e i ne (omega arith) lt m fits
        later _ none_here (ListsOutcome.nowhere none_later) = ListsOutcome.nowhere (λ i a le lt m.
            elim (dec_lt idx i) [
              | yes above ↦ none_later i a (omega arith) lt m
              | no top ↦ let e : i ≡ idx = omega arith in none_here a (rw e at m)
            ])

        go :
            idx < 13
            → ListsOutcome (idx + 1) (scan_lists fuel h size align (idx + 1) 0)
            → (r : ℕ) → SearchOutcome (λ a. member a (h.free_head idx)) r
            → ListsOutcome idx (scan_lists fuel h size align (idx + 1) r)
        go lt rest _ (SearchOutcome.found e ne m fits) =
            rw (scan_lists_kept fuel (idx + 1) e ne)
              (ListsOutcome.found e idx ne (omega arith) lt m fits)
        go lt rest _ (SearchOutcome.nowhere none_here) = later _ none_here rest

    -- When the free lists hold no NULL, `find_suitable_element` yields an element of the free
    -- lists from that of the size on which can hold the data, or NULL when none of them can.
    pub find_suitable_element-ListsOutcome :
        ListsOutcome (malloc_elem_free_list_index size) (find_suitable_element h size align)
    unfolding find_suitable_element
    find_suitable_element-ListsOutcome =
        lists_from 13 (malloc_elem_free_list_index size) (omega arith)
