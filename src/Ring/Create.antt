-- ===== src/Ring/Create.antt =====
-- Making a ring: the flags and macros of ring/ring.h, and `rte_ring_get_memsize_elem`,
-- `get_sync_type`, `rte_ring_init` and `rte_ring_create` of ring/ring.c.
use dpdk_code_modify.Base.{
  ℕ, ◌+◌, ◌-◌, ◌*◌, ◌/◌, ◌%◌, ◌^◌, Bool, not, ◌||◌, Option, none, some, bit_and, bit_or, ltb, ◌==◌,
  List, [], ◌∷◌, if◌then◌else◌,
}
use dpdk_code_modify.Base.Errno.{Status, done, fail, einval}
use dpdk_code_modify.Base.Words.{add32, sub32, not32}
use dpdk_code_modify.Ring.Types.{SyncType, mt, st, HeadTail, Ring}

abbrev pub ring_f_sp_enq : ℕ
ring_f_sp_enq = 0x0001

abbrev pub ring_f_sc_deq : ℕ
ring_f_sc_deq = 0x0002

abbrev pub ring_f_exact_sz : ℕ
ring_f_exact_sz = 0x0004

abbrev pub rte_ring_sz_mask : ℕ
rte_ring_sz_mask = 0x7fff_ffff

-- The five flags, with `RING_F_MP_RTS_ENQ` and `RING_F_MC_RTS_DEQ`, 0x0008 and 0x0010.
abbrev pub ring_f_mask : ℕ
ring_f_mask = 0x001f

-- `POWEROF2(x)`
unfoldable pub is_power_of_2 : ℕ → Bool
is_power_of_2 x = bit_and (sub32 x 1) x == 0

-- `rte_combine32ms1b`
unfoldable pub combine32ms1b : ℕ → ℕ
combine32ms1b x =
    let a = bit_or x (x / 2 ^ 1) in
    let b = bit_or a (a / 2 ^ 2) in
    let c = bit_or b (b / 2 ^ 4) in let d = bit_or c (c / 2 ^ 8) in bit_or d (d / 2 ^ 16)

-- `rte_align32pow2`
unfoldable pub align32pow2 : ℕ → ℕ
align32pow2 x = add32 (combine32ms1b (sub32 x 1)) 1

-- `sizeof(struct rte_ring)`: four words and two `struct rte_ring_headtail` of three words.
abbrev pub sizeof_ring : ℕ
sizeof_ring = 40

-- `RTE_ALIGN(sz, RTE_CACHE_LINE_SIZE)`
abbrev pub align_cache_line : ℕ → ℕ
align_cache_line sz = bit_and (sz + 63) (2 ^ 64 - 1 - 63)

-- The test on a count that `rte_ring_get_memsize_elem` and `rte_ring_init` share.
abbrev pub bad_count : ℕ → Bool
bad_count count = not (is_power_of_2 count) || ltb rte_ring_sz_mask count

-- `rte_ring_get_memsize_elem`; `none` is `-EINVAL`.
unfoldable pub get_memsize_elem : ℕ → ℕ → Option ℕ
get_memsize_elem esize count =
    if not (esize % 4 == 0)
    then none
    else if bad_count count
    then none
    else some (align_cache_line (sizeof_ring + count * esize))

-- One `switch` of `get_sync_type`, on the masked flags; `none` is its `default`.
unfoldable pub sync_case : ℕ → ℕ → Option SyncType
sync_case masked single =
    if masked == 0 then some mt else if masked == single then some st else none

-- `get_sync_type`; `none` is `-EINVAL`.
unfoldable pub get_sync_type : ℕ → Option (SyncType × SyncType)
get_sync_type flags = elim (sync_case (bit_and flags ring_f_sp_enq) ring_f_sp_enq) [
  | none ↦ none
  | some prod_st ↦ elim (sync_case (bit_and flags ring_f_sc_deq) ring_f_sc_deq) [
    | none ↦ none
    | some cons_st ↦ some (prod_st, cons_st)
  ]
]

abbrev pub zero_headtail : SyncType → HeadTail
zero_headtail s = record { head = 0; tail = 0; sync_type = s }

-- The header after `memset` and the two assignments that follow; MT is 0. The slots are not cleared.
abbrev pub cleared : Ring → ℕ → SyncType → SyncType → Ring
cleared r flags prod_st cons_st = record {
  flags = flags;
  size = 0;
  mask = 0;
  capacity = 0;
  prod = zero_headtail prod_st;
  cons = zero_headtail cons_st;
  slots = r.slots;
}

-- The sizes of `rte_ring_init`, on the cleared ring.
unfoldable pub set_size : Ring → ℕ → ℕ → Status × Ring
set_size r count flags =
    if not (bit_and flags ring_f_exact_sz == 0)
    then (let size = align32pow2 (add32 count 1) in
        (done, record r { size = size; mask = sub32 size 1; capacity = count }))
    else if bad_count count
    then (fail einval, r)
    else (let mask = sub32 count 1 in
        (done, record r { size = count; mask = mask; capacity = mask }))

-- `rte_ring_init`
unfoldable pub init : Ring → ℕ → ℕ → Status × Ring
init r count flags =
    if not (bit_and flags (not32 ring_f_mask) == 0)
    then (fail einval, r)
    else elim (get_sync_type flags) [
      | none ↦ (fail einval, cleared r flags mt mt)
      | some (prod_st, cons_st) ↦ set_size (cleared r flags prod_st cons_st) count flags
    ]

-- `rte_ring_create_elem`. `malloc` gives a block for a size, with whatever that holds, or nothing.
unfoldable pub create_elem : (ℕ → Option Ring) → ℕ → ℕ → ℕ → Option Ring
create_elem malloc esize requested_count flags =
    let count =
      if not (bit_and flags ring_f_exact_sz == 0)
      then align32pow2 (add32 requested_count 1)
      else requested_count in
    elim (get_memsize_elem esize count) [
      | none ↦ none
      | some ring_size ↦ elim (malloc ring_size) [
        | none ↦ none
        | some r ↦ some ((init r requested_count flags).1)
      ]
    ]

-- `rte_ring_create`
unfoldable pub create : (ℕ → Option Ring) → ℕ → ℕ → Option Ring
create malloc count flags = create_elem malloc 8 count flags

-- `rte_ring_free`, with what it hands to `free`: only ever NULL, so a ring is never given back.
unfoldable pub free : {P : Type 0} → Option P → List (Option P)
free none = none ∷ []
free (some r) = []
