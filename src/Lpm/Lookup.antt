-- ===== src/Lpm/Lookup.antt =====
-- `rte_lpm_lookup` of lpm/lpm.c, and what it reads from the tables.
use dpdk_code_modify.Base.{
  ℕ, ◌+◌, ◌*◌, ◌/◌, ◌%◌, ◌^◌, ◌<◌, ◌≡◌, Bool, true, false, ◌&&◌, Option, none, some, bit_and, arith,
  ◌==◌, if◌then◌else◌, Bool-cases, inl, inr,
}
use dpdk_code_modify.Base.Errno.{Status, done, fail, enoent}
use dpdk_code_modify.Base.Words.{add32, mul32}
use dpdk_code_modify.Base.Bits.{bit_and-mask, bit_and-shifted}
use dpdk_code_modify.Lpm.Types.{Entry, entry_word, Lpm, tbl8_group_num_entries}

-- `RTE_LPM_VALID_EXT_ENTRY_BITMASK` and `RTE_LPM_LOOKUP_SUCCESS`
abbrev pub valid_ext_entry_bitmask : ℕ
valid_ext_entry_bitmask = 0x0300_0000

abbrev pub lookup_success : ℕ
lookup_success = 0x0100_0000

-- `rte_lpm_lookup` on pointers that are not NULL: the status and `*next_hop`.
unfoldable pub lookup : Lpm → ℕ → Status × ℕ
lookup l ip =
    let first = entry_word (l.tbl24 (ip / 2 ^ 8)) in
    let tbl_entry =
      if bit_and first valid_ext_entry_bitmask == valid_ext_entry_bitmask
      then entry_word
          (l.tbl8 (add32 (ip % 2 ^ 8) (mul32 (bit_and first 0x00ff_ffff) tbl8_group_num_entries)))
      else first in
    (
      if bit_and tbl_entry lookup_success == 0 then fail enoent else done,
      bit_and tbl_entry 0x00ff_ffff,
    )

-- An entry that points to a tbl8 group.
abbrev pub is_extended : Entry → Bool
is_extended e = e.valid && e.valid_group

-- The entry that answers for an address.
abbrev pub cell : Lpm → ℕ → Entry
cell l q =
    let e = l.tbl24 (q / 256) in if is_extended e then l.tbl8 (e.next_hop * 256 + q % 256) else e

-- What an entry says: the depth and the next hop of the rule that it stands for.
abbrev pub answer : Entry → Option (ℕ × ℕ)
answer e = if e.valid then some (e.depth, e.next_hop) else none

abbrev pub view : Lpm → ℕ → Option (ℕ × ℕ)
view l q = answer (cell l q)

-- The masks pick the fields of an entry.
module _ (e : Entry) (narrow : e.next_hop < 2 ^ 24) where
  word_next_hop : bit_and (entry_word e) 0x00ff_ffff ≡ e.next_hop
  unfolding entry_word
  word_next_hop = ground (arith, bit_and-mask 24 (entry_word e))

  word_valid : (bit_and (entry_word e) lookup_success == 0) ≡ (if e.valid then false else true)
  unfolding entry_word
  word_valid =
      ground (arith, bit_and-shifted 24 (entry_word e) 1, bit_and-mask 1 (entry_word e / 2 ^ 24))

  word_extended :
      (bit_and (entry_word e) valid_ext_entry_bitmask == valid_ext_entry_bitmask) ≡ is_extended e
  unfolding entry_word
  word_extended =
      ground (arith, bit_and-shifted 24 (entry_word e) 3, bit_and-mask 2 (entry_word e / 2 ^ 24))

-- What the last lines of `rte_lpm_lookup` make of an entry.
abbrev read_word : ℕ → Status × ℕ
read_word w = (if bit_and w lookup_success == 0 then fail enoent else done, bit_and w 0x00ff_ffff)

read_word_lem :
    (e : Entry)
    → e.next_hop < 2 ^ 24
    → read_word (entry_word e) ≡ (if e.valid then done else fail enoent, e.next_hop)
read_word_lem e narrow = ground (arith, word_valid e narrow, word_next_hop e narrow)

-- Where the tbl24 entry and the answering entry have next hops of 24 bits, the masks and shifts of
-- `rte_lpm_lookup` on packed words return the status and the next hop of the entry that the fields
-- select.
pub lookup-cell :
    (l : Lpm) (q : ℕ)
    → (l.tbl24 (q / 256)).next_hop < 2 ^ 24
    → (cell l q).next_hop < 2 ^ 24
    → lookup l q ≡ (if (cell l q).valid then done else fail enoent, (cell l q).next_hop)
unfolding lookup
lookup-cell l q n24 nc =
    let e = l.tbl24 (q / 256) in
    let w = word_extended e n24 in
    let index : add32 (q % 2 ^ 8) (mul32 (bit_and (entry_word e) 0x00ff_ffff) 256)
        ≡ e.next_hop * 256 + q % 256 =
      omega (arith, word_next_hop e n24) in
    elim (Bool-cases (is_extended e)) [
      | inl ext ↦
          rw (w, ext, index) (read_word_lem (l.tbl8 (e.next_hop * 256 + q % 256)) (rw ext at nc))
      | inr plain ↦ rw (w, plain) (read_word_lem e n24)
    ]
