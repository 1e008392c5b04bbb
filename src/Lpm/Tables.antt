-- ===== src/Lpm/Tables.antt =====
-- Writing a prefix into the tables: `add_depth_small`, `_tbl8_alloc` and `add_depth_big` of lpm/lpm.c.
use dpdk_code_modify.Base.{
  ℕ, zero, suc, ◌/◌, ◌^◌, Bool, true, false, not, ◌&&◌, ◌||◌, Option, none, some, bit_and, ltb, leb,
  if◌then◌else◌, store,
}
use dpdk_code_modify.Base.Errno.{Status, done, fail, enospc}
use dpdk_code_modify.Base.Words.{add32, mul32}
use dpdk_code_modify.Base.Loops.{for_loop}
use dpdk_code_modify.Lpm.Types.{Entry, entry, Lpm, tbl8_group_num_entries, depth_to_range}

-- A loop body on the cells of a table: a new value for the cell at `i`.
abbrev pub at_cell : (Entry → Entry) → ℕ → (ℕ → Entry) → ℕ → Entry
at_cell g i t = store t i (g (t i))

-- The index of the first entry of a tbl8 group.
abbrev pub group_start : ℕ → ℕ
group_start group_idx = mul32 group_idx tbl8_group_num_entries

-- A loop over `range` entries of a table from `lo` on.
abbrev pub over : ℕ → ℕ → (Entry → Entry) → (ℕ → Entry) → ℕ → Entry
over lo range g t = for_loop range lo (add32 lo range) (at_cell g) t

-- `!valid || depth <= depth`: the entry gives way to a rule of that depth.
abbrev pub yields_to : ℕ → Entry → Bool
yields_to depth e = not e.valid || leb e.depth depth

-- The inner loop body of `add_depth_small`.
abbrev pub small_tbl8 : ℕ → ℕ → Entry → Entry
small_tbl8 depth next_hop e = if yields_to depth e then entry next_hop true true depth else e

-- One round of `add_depth_small`, at tbl24 entry `i`.
unfoldable pub small_round : ℕ → ℕ → ℕ → Lpm → Lpm
small_round depth next_hop i l =
    let e = l.tbl24 i in
    if not e.valid || (not e.valid_group && leb e.depth depth)
    then record l { tbl24 = store l.tbl24 i (entry next_hop true false depth) }
    else if e.valid_group
    then record l {
      tbl8 =
          over (group_start e.next_hop) tbl8_group_num_entries (small_tbl8 depth next_hop) l.tbl8;
    }
    else l

-- `add_depth_small`, which always returns 0.
unfoldable pub add_depth_small : Lpm → ℕ → ℕ → ℕ → Lpm
add_depth_small l ip depth next_hop =
    let tbl24_index = ip / 2 ^ 8 in
    let tbl24_range = depth_to_range depth in
    for_loop tbl24_range tbl24_index (add32 tbl24_index tbl24_range) (small_round depth next_hop) l

-- The scan of `_tbl8_alloc`: the first group from `group_idx` on that is not in use.
unfoldable pub find_group : ℕ → ℕ → ℕ → (ℕ → Entry) → Option ℕ
find_group zero group_idx number t = none
find_group (suc fuel) group_idx number t = elim (ltb group_idx number) [
  | true ↦ elim ((t (group_start group_idx)).valid_group) [
    | true ↦ find_group fuel (add32 group_idx 1) number t
    | false ↦ some group_idx
  ]
  | false ↦ none
]

-- `memset` of a whole group to 0, then the first entry marked as in use.
unfoldable pub clean_group : ℕ → (ℕ → Entry) → ℕ → Entry
clean_group group_idx t =
    let start = group_start group_idx in
    store (over start tbl8_group_num_entries (λ _. entry 0 false false 0) t) start
      (entry 0 false true 0)

-- `_tbl8_alloc` and `tbl8_alloc`; `none` is `-ENOSPC`.
unfoldable pub tbl8_alloc : Lpm → Option (ℕ × Lpm)
tbl8_alloc l = elim (find_group l.number_tbl8s 0 l.number_tbl8s l.tbl8) [
  | none ↦ none
  | some group_idx ↦ some (group_idx, record l { tbl8 = clean_group group_idx l.tbl8 })
]

-- The stores of `add_depth_big`: into a fresh range, into a whole group from the tbl24 entry, and
-- into a group that is there already. Each keeps the flag that marks the group.
abbrev pub fresh_tbl8 : ℕ → ℕ → Entry → Entry
fresh_tbl8 depth next_hop e = entry next_hop true e.valid_group depth

abbrev pub big_tbl8 : ℕ → ℕ → Entry → Entry
big_tbl8 depth next_hop e = if yields_to depth e then entry next_hop true e.valid_group depth else e

-- The tbl24 entry that points to a group.
abbrev pub extended : ℕ → Entry
extended group_idx = entry group_idx true true 0

-- `add_depth_big` with the tbl24 entry invalid, once group `g` is there.
unfoldable pub big_invalid : ℕ → ℕ → ℕ → ℕ → Lpm → Lpm
big_invalid g ip_masked depth next_hop l =
    let tbl8_index = add32 (group_start g) (bit_and ip_masked 0xff) in
    record l {
      tbl8 = over tbl8_index (depth_to_range depth) (fresh_tbl8 depth next_hop) l.tbl8;
      tbl24 = store l.tbl24 (ip_masked / 2 ^ 8) (extended g);
    }

-- The same with a tbl24 entry that holds a next hop: the group is first filled from that.
unfoldable pub big_plain : ℕ → ℕ → ℕ → ℕ → Lpm → Lpm
big_plain g ip_masked depth next_hop l =
    let start = group_start g in
    let old = l.tbl24 (ip_masked / 2 ^ 8) in
    let filled = over start tbl8_group_num_entries (fresh_tbl8 old.depth old.next_hop) l.tbl8 in
    let tbl8_index = add32 start (bit_and ip_masked 0xff) in
    record l {
      tbl8 = over tbl8_index (depth_to_range depth) (fresh_tbl8 depth next_hop) filled;
      tbl24 = store l.tbl24 (ip_masked / 2 ^ 8) (extended g);
    }

-- The same with a tbl24 entry that points to a group.
unfoldable pub big_extended : ℕ → ℕ → ℕ → Lpm → Lpm
big_extended ip_masked depth next_hop l =
    let start = group_start (l.tbl24 (ip_masked / 2 ^ 8)).next_hop in
    let tbl8_index = add32 start (bit_and ip_masked 0xff) in
    record l { tbl8 = over tbl8_index (depth_to_range depth) (big_tbl8 depth next_hop) l.tbl8 }

-- `add_depth_big`
unfoldable pub add_depth_big : Lpm → ℕ → ℕ → ℕ → Status × Lpm
add_depth_big l ip_masked depth next_hop =
    let e = l.tbl24 (ip_masked / 2 ^ 8) in
    if not e.valid
    then elim (tbl8_alloc l) [
      | none ↦ (fail enospc, l)
      | some (g, l') ↦ (done, big_invalid g ip_masked depth next_hop l')
    ]
    else if not e.valid_group
    then elim (tbl8_alloc l) [
      | none ↦ (fail enospc, l)
      | some (g, l') ↦ (done, big_plain g ip_masked depth next_hop l')
    ]
    else (done, big_extended ip_masked depth next_hop l)
