-- ===== src/Lpm/Alloc.antt =====
-- The allocation of a tbl8 group: `_tbl8_alloc` of lpm/lpm.c.
use dpdk_code_modify.Base.{
  ℕ, zero, suc, ◌+◌, ◌*◌, ◌^◌, ◌≤◌, ◌<◌, ◌≡◌, ◌≢◌, true, false, none, some, arith, ◌==◌,
  if◌then◌else◌, ◌⊎◌, inl, inr, Option-cases,
}
use dpdk_code_modify.Base.Words.{add32}
use dpdk_code_modify.Base.Loops.{within}
use dpdk_code_modify.Lpm.Types.{Entry, entry, Lpm}
use dpdk_code_modify.Lpm.Tables.{find_group, clean_group, tbl8_alloc}
use dpdk_code_modify.Lpm.Lookup.{is_extended}
use dpdk_code_modify.Lpm.Cells.{IsLinked, over-cells, group_start_lem}

-- What `_tbl8_alloc` finds is a group that is there and not in use; where it finds none, every group
-- is in use.
pub find_group-some :
    (fuel i number : ℕ) (t : ℕ → Entry) {g : ℕ}
    → number < 2 ^ 23
    → find_group fuel i number t ≡ some g
    → (g < number) × ((t (g * 256)).valid_group ≡ false)
unfolding find_group
find_group-some zero i number t few e = absurd (ground arith)
find_group-some (suc fuel) i number t {g} few e =
    ground (arith, find_group-some fuel (add32 i 1) number t {g = g} few)

pub find_group-none :
    (fuel i number : ℕ) (t : ℕ → Entry) (g : ℕ)
    → number < 2 ^ 23
    → number ≤ i + fuel
    → find_group fuel i number t ≡ none
    → i ≤ g
    → g < number
    → (t (g * 256)).valid_group ≡ true
unfolding find_group
find_group-none zero i number t g few enough e le lt = absurd (omega arith)
find_group-none (suc fuel) i number t g few enough e le lt =
    ground (arith, find_group-none fuel (i + 1) number t g few)

pub clean_group_cells :
    (g : ℕ) (t : ℕ → Entry) (j : ℕ)
    → g < 2 ^ 23
    → clean_group g t j ≡ (
        if g * 256 == j
        then entry 0 false true 0
        else if within (g * 256) 256 j
        then entry 0 false false 0
        else t j)
unfolding clean_group
clean_group_cells g t j few =
    rw (group_start_lem g few)
      (ground (arith, over-cells (g * 256) 256 (λ _. entry 0 false false 0) t j))

-- A group to allocate is one that no tbl24 entry points to.
pub free_group :
    (l : Lpm) (g : ℕ)
    → IsLinked l
    → (l.tbl8 (g * 256)).valid_group ≡ false
    → (j : ℕ) → is_extended (l.tbl24 j) ≡ true
    → (l.tbl24 j).next_hop ≢ g
free_group l g k free j ext = ground (arith, k.marked j ext)

-- On linked tables `_tbl8_alloc` either gives a group inside the table that was not in use, and
-- cleans that group, or fails, and then every group is in use.
pub tbl8_alloc-cases :
    (l : Lpm)
    → IsLinked l
    → ((tbl8_alloc l ≡ none)
        × ((g : ℕ) → g < l.number_tbl8s → (l.tbl8 (g * 256)).valid_group ≡ true))
      ⊎ ((g : ℕ) × (tbl8_alloc l ≡ some (g, record l { tbl8 = clean_group g l.tbl8 }))
          × (g < l.number_tbl8s)
          × ((l.tbl8 (g * 256)).valid_group ≡ false))
unfolding tbl8_alloc
tbl8_alloc-cases l k =
    let n = l.number_tbl8s in
    let few = k.few in
    elim (Option-cases (find_group n 0 n l.tbl8)) [
      | inl full ↦ inl (
        rw (full, tbl8_alloc),
        λ g lt. find_group-none n 0 n l.tbl8 g few (omega arith) full (omega arith) lt,
      )
      | inr (g, found) ↦
          let (inside, free) = find_group-some n 0 n l.tbl8 few found in
          inr (g, rw (found, tbl8_alloc), inside, free)
    ]
