-- ===== src/Ring/Exact.antt =====
-- `rte_ring_create` with `RING_F_EXACT_SZ`: a ring that takes as many elements as asked for.
use native.Mathlib.Nat.{div-eq_of_lt}
use dpdk_code_modify.Base.{
  ℕ, ◌+◌, ◌-◌, ◌*◌, ◌/◌, ◌%◌, ◌^◌, ◌≤◌, ◌<◌, ◌≡◌, ◌≢◌, refl, ap, ◌∙◌, true, false, Option, some,
  arith, bit_and, dec_lt, ==_iff,
}
use dpdk_code_modify.Base.Bits.{pow_split, bit_and-shifted}
use dpdk_code_modify.Base.Errno.{done}
use dpdk_code_modify.Base.Words.{add32, sub32, not32, pow-le}
use dpdk_code_modify.Ring.Types.{Ring}
use dpdk_code_modify.Ring.Create.{
  ring_f_exact_sz, ring_f_mask, is_power_of_2, align32pow2, get_memsize_elem, bad_count,
  align_cache_line, sizeof_ring, cleared, set_size, init, create_elem, create,
}
use dpdk_code_modify.Ring.Created.{sync_of_bit, get_sync_type_lem, sized-IsValid, CreatedWell}
use dpdk_code_modify.Ring.Align.{LeastPower, align-LeastPower, align_overflow, align_zero}

-- The ring that `rte_ring_init` makes of an exact count.
abbrev pub exact_ring : Ring → ℕ → ℕ → Ring
exact_ring r count flags =
    let size = align32pow2 (add32 count 1) in
    record (cleared r flags (sync_of_bit (flags % 2)) (sync_of_bit (flags / 2 % 2))) {
      size = size;
      mask = sub32 size 1;
      capacity = count;
    }

pub init_exact :
    (r : Ring) (count flags : ℕ)
    → bit_and flags (not32 ring_f_mask) ≡ 0
    → bit_and flags ring_f_exact_sz ≢ 0
    → init r count flags ≡ (done, exact_ring r count flags)
unfolding init set_size
init_exact r count flags known exact = ground (arith, get_sync_type_lem flags)

exact-CreatedWell :
    (r : Ring) (count flags : ℕ)
    → count < 2 ^ 31
    → CreatedWell flags count (exact_ring r count flags)
exact-CreatedWell r count flags small =
    let same : add32 count 1 ≡ count + 1 = omega arith in
    let l = align-LeastPower (add32 count 1) (omega arith) (omega arith) in
    let le : l.exponent ≤ 31 = l.least 31 (omega arith) in
    record {
      order = l.exponent;
      valid =
          sized-IsValid (l.exponent) r flags _ _ (align32pow2 (add32 count 1)) count le l.power
            (omega (arith, l.above));
      empty = refl;
      holds = refl;
      flagged = refl;
    }

-- `POWEROF2` accepts every power of two below 2 ^ 32.
power-is_power_of_2 : (k : ℕ) → k ≤ 31 → is_power_of_2 (2 ^ k) ≡ true
unfolding is_power_of_2
power-is_power_of_2 k h =
    let pred : sub32 (2 ^ k) 1 ≡ 2 ^ k - 1 = omega (arith, pow_split k, pow-le k 31 h) in
    let none_left : (2 ^ k - 1) / 2 ^ k ≡ 0 = div-eq_of_lt (omega (arith, pow_split k)) in
    let apart : bit_and (2 ^ k - 1) (1 * 2 ^ k) ≡ 0 =
      bit_and-shifted k (2 ^ k - 1) 1
      ∙ ap (λ (t : ℕ). bit_and t 1 * 2 ^ k) none_left
      ∙ omega arith in
    (==_iff (bit_and (sub32 (2 ^ k) 1) (2 ^ k)) 0).1
      (ap (λ (t : ℕ). bit_and t (2 ^ k)) pred ∙ ap (bit_and (2 ^ k - 1)) (omega arith) ∙ apart)

-- The bytes that a ring of `size` pointers takes.
abbrev pub bytes : ℕ → ℕ
bytes size = align_cache_line (sizeof_ring + size * 8)

-- What the exact size makes of `rte_ring_create`, past the test on the count.
create_block :
    (malloc : ℕ → Option Ring) (count flags : ℕ)
    → bit_and flags (not32 ring_f_mask) ≡ 0
    → bit_and flags ring_f_exact_sz ≢ 0
    → bad_count (align32pow2 (add32 count 1)) ≡ false
    → {block : Ring} → malloc (bytes (align32pow2 (add32 count 1))) ≡ some block
    → create malloc count flags ≡ some (exact_ring block count flags)
unfolding create create_elem get_memsize_elem
create_block malloc count flags known exact good {block} got =
    ground (arith, init_exact block count flags known exact)

-- With known flags, `RING_F_EXACT_SZ` among them, and a count below 2 ^ 30, `rte_ring_create`
-- returns a ring as soon as `malloc` has a block for the next power of two above the count, and
-- the ring is valid and empty, with the flags given, and takes as many elements as the count.
pub create_exact :
    (malloc : ℕ → Option Ring) (count flags : ℕ) {block : Ring}
    → count < 2 ^ 30
    → bit_and flags (not32 ring_f_mask) ≡ 0
    → bit_and flags ring_f_exact_sz ≢ 0
    → malloc (bytes (align32pow2 (add32 count 1))) ≡ some block
    → (r : Ring) × (create malloc count flags ≡ some r) × CreatedWell flags count r
create_exact malloc count flags {block} small known exact got = (
  exact_ring block count flags,
  create_block malloc count flags known exact good got,
  exact-CreatedWell block count flags (omega arith),
)
  where
    l : LeastPower (add32 count 1) (align32pow2 (add32 count 1))
    l = align-LeastPower (add32 count 1) (omega arith) (omega arith)

    le : l.exponent ≤ 30
    le = l.least 30 (omega arith)

    power : is_power_of_2 (align32pow2 (add32 count 1)) ≡ true
    power = ap is_power_of_2 l.power ∙ power-is_power_of_2 l.exponent (omega (arith, le))

    good : bad_count (align32pow2 (add32 count 1)) ≡ false
    good = ground (arith, power, l.power, pow-le l.exponent 30 le)

bad_count_zero : bad_count 0 ≡ false
unfolding is_power_of_2
bad_count_zero = refl

-- With known flags, `RING_F_EXACT_SZ` among them, and a count from 2 ^ 31 to 2 ^ 32 - 1, the size
-- of the ring wraps to 0: given a block for a ring without slots, `rte_ring_create` returns a ring
-- of size 0 with the count as its capacity.
pub create_exact_overflow :
    (malloc : ℕ → Option Ring) (count flags : ℕ) {block : Ring}
    → 2 ^ 31 ≤ count
    → count < 2 ^ 32
    → bit_and flags (not32 ring_f_mask) ≡ 0
    → bit_and flags ring_f_exact_sz ≢ 0
    → malloc (bytes 0) ≡ some block
    → (r : Ring) × (create malloc count flags ≡ some r) × (r.size ≡ 0) × (r.capacity ≡ count)
create_exact_overflow malloc count flags {block} big word known exact got = (
  exact_ring block count flags,
  create_block malloc count flags known exact (ap bad_count wraps ∙ bad_count_zero)
      (ap (λ (t : ℕ). malloc (bytes t)) wraps ∙ got),
  wraps,
  refl,
)
  where
    wraps : align32pow2 (add32 count 1) ≡ 0
    wraps = elim (dec_lt (count + 1) (2 ^ 32)) [
      | yes fits ↦ align_overflow (add32 count 1) (omega arith) (omega arith)
      | no over ↦ let zero : add32 count 1 ≡ 0 = omega arith in ap align32pow2 zero ∙ align_zero
    ]
