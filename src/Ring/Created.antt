-- ===== src/Ring/Created.antt =====
-- What the functions of `Ring.Create` yield.
use dpdk_code_modify.Base.{
  ℕ, zero, suc, ◌+◌, ◌-◌, ◌*◌, ◌/◌, ◌%◌, ◌^◌, ◌≤◌, ◌<◌, ◌≡◌, refl, sym, ap, ◌∙◌, true, false,
  Option, some, [], arith, bit_and, dec_lt, Bool-cases, Option-cases, inl, inr, ==_iff,
}
use dpdk_code_modify.Base.Bits.{bit_and-digit, pow_split, bit_and-mask, bit_and-shifted}
use dpdk_code_modify.Base.Errno.{done}
use dpdk_code_modify.Base.Words.{sub32, not32, pow-le}
use dpdk_code_modify.Ring.Types.{SyncType, mt, st, Ring}
use dpdk_code_modify.Ring.Create.{
  ring_f_exact_sz, ring_f_mask, rte_ring_sz_mask, is_power_of_2, get_memsize_elem, bad_count,
  align_cache_line, sizeof_ring, sync_case, get_sync_type, cleared, set_size, init, create_elem,
  create,
}
use dpdk_code_modify.Ring.Inv.{IsValid, contents}

bit_and_self : (n a : ℕ) → a ≤ n → bit_and a a ≡ a
bit_and_self zero zero h = refl
bit_and_self zero (suc a) h = elim h [ ]
bit_and_self (suc n) a h = elim (dec_lt 0 a) [
  | yes p ↦ omega (arith, bit_and-digit a a, bit_and_self n (a / 2) (omega arith))
  | no p ↦ let e : a ≡ 0 = omega arith in rw e
]

-- A number that shares no digit with its predecessor is a power of two.
power_of_shared : (n x : ℕ) → x ≤ n → 0 < x → bit_and (x - 1) x ≡ 0 → (k : ℕ) × (x ≡ 2 ^ k)
power_of_shared zero x h p e = absurd (omega arith)
power_of_shared (suc n) x h p e = elim (dec_lt (x % 2) 1) [
  | yes even ↦
      let halves : bit_and (x / 2 - 1) (x / 2) ≡ 0 = ground (arith, bit_and-digit (x - 1) x) in
      let (k, ek) = power_of_shared n (x / 2) (omega arith) (omega arith) halves in
      (suc k, omega (arith, pow_split k))
  | no odd ↦ (0, ground (arith, bit_and-digit (x - 1) x, bit_and_self (x / 2) (x / 2)))
]

-- A positive word below 2 ^ 32 that `POWEROF2` accepts is a power of two.
pub is_power_of_2_sound :
    (x : ℕ) → x < 2 ^ 32 → 0 < x → is_power_of_2 x ≡ true → (k : ℕ) × (x ≡ 2 ^ k)
unfolding is_power_of_2
is_power_of_2_sound x w p h =
    let e : sub32 x 1 ≡ x - 1 = omega arith in
    power_of_shared x x (omega arith) p
      (ap (λ (t : ℕ). bit_and t x) (sym e) ∙ (==_iff (bit_and (sub32 x 1) x) 0).0 h)

-- The synchronisation that one flag bit asks for.
abbrev pub sync_of_bit : ℕ → SyncType
sync_of_bit zero = mt
sync_of_bit (suc _) = st

sync_case_bit : (b w : ℕ) → b < 2 → 0 < w → sync_case (b * w) w ≡ some (sync_of_bit b)
unfolding sync_case
sync_case_bit zero w h p = ground arith
sync_case_bit (suc zero) w h p = ground arith
sync_case_bit (suc (suc b)) w h p = absurd (omega arith)

-- `get_sync_type` never fails: bit 0 of the flags decides the producer, bit 1 the consumer.
pub get_sync_type_lem :
    (flags : ℕ) → get_sync_type flags ≡ some (sync_of_bit (flags % 2), sync_of_bit (flags / 2 % 2))
unfolding get_sync_type
get_sync_type_lem flags =
    let p : bit_and flags 1 ≡ flags % 2 * 1 = omega (arith, bit_and-mask 1 flags) in
    let c : bit_and flags 2 ≡ flags / 2 % 2 * 2 =
      omega (arith, bit_and-shifted 1 flags 1, bit_and-mask 1 (flags / 2)) in
    let prod : sync_case (bit_and flags 1) 1 ≡ some (sync_of_bit (flags % 2)) =
      ap (λ (t : ℕ). sync_case t 1) p ∙ sync_case_bit (flags % 2) 1 (omega arith) (omega arith) in
    let cons : sync_case (bit_and flags 2) 2 ≡ some (sync_of_bit (flags / 2 % 2)) =
      ap (λ (t : ℕ). sync_case t 2) c
      ∙ sync_case_bit (flags / 2 % 2) 2 (omega arith) (omega arith) in
    ground (arith, prod, cons)

module _ (order : ℕ) (r : Ring) (flags : ℕ) (p c : SyncType) where
  pub sized-IsValid :
      (size capacity : ℕ)
      → order ≤ 31
      → size ≡ 2 ^ order
      → capacity < size
      → IsValid order
          (record (cleared r flags p c) { size = size; mask = sub32 size 1; capacity = capacity })
  sized-IsValid size capacity le pow room = omega (arith, pow_split order, pow-le order 31 le)

order-lt : (k : ℕ) → 2 ^ k ≤ 2 ^ 31 - 1 → k ≤ 30
order-lt k h = elim (dec_lt k 31) [
  | yes p ↦ omega arith
  | no q ↦ absurd (omega (arith, pow-le 31 k (omega arith)))
]

-- What `rte_ring_create` owes: a valid and empty ring of the capacity and flags asked for.
pub record CreatedWell (flags capacity : ℕ) (r : Ring) : Type 0 where
  pub order : ℕ
  pub valid : IsValid order r
  pub empty : contents r ≡ []
  pub holds : r.capacity ≡ capacity
  pub flagged : r.flags ≡ flags

-- The ring that `rte_ring_init` makes of a plain count.
abbrev pub plain_ring : Ring → ℕ → ℕ → Ring
plain_ring r count flags =
    record (cleared r flags (sync_of_bit (flags % 2)) (sync_of_bit (flags / 2 % 2))) {
      size = count;
      mask = sub32 count 1;
      capacity = sub32 count 1;
    }

pub init_plain :
    (r : Ring) (count flags : ℕ)
    → bit_and flags (not32 ring_f_mask) ≡ 0
    → bit_and flags ring_f_exact_sz ≡ 0
    → bad_count count ≡ false
    → init r count flags ≡ (done, plain_ring r count flags)
unfolding init set_size
init_plain r count flags known plain good = ground (arith, get_sync_type_lem flags)

plain-CreatedWell :
    (r : Ring) (count flags : ℕ)
    → count < 2 ^ 32
    → 0 < count
    → bad_count count ≡ false
    → CreatedWell flags (count - 1) (plain_ring r count flags)
plain-CreatedWell r count flags w p good =
    let pow2 : is_power_of_2 count ≡ true = ground arith in
    let small : count ≤ rte_ring_sz_mask = ground arith in
    let (k, e) = is_power_of_2_sound count w p pow2 in
    let le : k ≤ 30 = order-lt k (omega arith) in
    record {
      order = k;
      valid = sized-IsValid k r flags _ _ count (sub32 count 1) (omega arith) e (omega arith);
      empty = refl;
      holds = omega arith;
      flagged = refl;
    }

-- With known flags and no exact size, `rte_ring_create` of a positive count below 2 ^ 32, when it
-- returns a ring, returns a valid and empty one with the flags given that takes one element less
-- than the count, whatever the block from `malloc` held.
pub create-CreatedWell :
    (malloc : ℕ → Option Ring) (count flags : ℕ) {r : Ring}
    → count < 2 ^ 32
    → 0 < count
    → bit_and flags (not32 ring_f_mask) ≡ 0
    → bit_and flags ring_f_exact_sz ≡ 0
    → create malloc count flags ≡ some r
    → CreatedWell flags (count - 1) r
unfolding create create_elem get_memsize_elem
create-CreatedWell malloc count flags {r} w p known plain e = elim (Bool-cases (bad_count count)) [
  | inl bad ↦ absurd (ground arith)
  | inr good ↦ elim (Option-cases (malloc (align_cache_line (sizeof_ring + count * 8)))) [
    | inl failed ↦ absurd (ground arith)
    | inr (block, got) ↦
        let made : r ≡ plain_ring block count flags =
          ground (arith, init_plain block count flags known plain good) in
        rw made (plain-CreatedWell block count flags w p good)
  ]
]

-- With known flags and no exact size, a ring that `rte_ring_create` returns for a count of zero
-- has no slot and a capacity of 2 ^ 32 - 1.
pub create_zero :
    (malloc : ℕ → Option Ring) (flags : ℕ) {r : Ring}
    → bit_and flags (not32 ring_f_mask) ≡ 0
    → bit_and flags ring_f_exact_sz ≡ 0
    → create malloc 0 flags ≡ some r
    → (r.size ≡ 0) × (r.capacity ≡ 2 ^ 32 - 1)
unfolding create create_elem get_memsize_elem is_power_of_2
create_zero malloc flags {r} known plain e =
    elim (Option-cases (malloc (align_cache_line (sizeof_ring + 0 * 8)))) [
      | inl failed ↦ absurd (ground arith)
      | inr (block, got) ↦
          let made : r ≡ plain_ring block 0 flags =
            ground (arith, init_plain block 0 flags known plain refl) in
          rw made (refl, refl)
    ]
