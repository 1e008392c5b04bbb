-- ===== src/Ring/Unchecked.antt =====
-- `rte_ring_create` of ring/ring.c does not look at the result of `rte_ring_init`.
use dpdk_code_modify.Base.{
  ℕ, ◌≡◌, ◌≢◌, false, not, Option, some, arith, bit_and, ◌==◌, if◌then◌else◌, Bool-cases,
  Option-cases, inl, inr, ℕ_discrete,
}
use dpdk_code_modify.Base.Errno.{Status, done, fail, einval}
use dpdk_code_modify.Base.Words.{add32, not32}
use dpdk_code_modify.Ring.Types.{Ring}
use dpdk_code_modify.Ring.Create.{
  ring_f_exact_sz, ring_f_mask, align32pow2, get_memsize_elem, bad_count, init, create_elem, create,
}
use dpdk_code_modify.Ring.Created.{init_plain}
use dpdk_code_modify.Ring.Exact.{init_exact}

-- What `rte_ring_init` of a block answers, and the ring that the caller gets: the block made into a
-- ring, or, with an unsupported flag, an error and the block as it was.
pub data UncheckedInit (flags : ℕ) (block : Ring) : Status × Ring → Ring → Type 0 where
  made : {r : Ring} → bit_and flags (not32 ring_f_mask) ≡ 0 → UncheckedInit flags block (done, r) r
  unmade :
      bit_and flags (not32 ring_f_mask) ≢ 0 → UncheckedInit flags block (fail einval, block) block

-- The count of which `rte_ring_create` asks for the size.
abbrev sized : ℕ → ℕ → ℕ
sized count flags =
    if not (bit_and flags ring_f_exact_sz == 0) then align32pow2 (add32 count 1) else count

refused_init :
    (block : Ring) (count flags : ℕ)
    → bit_and flags (not32 ring_f_mask) ≢ 0
    → init block count flags ≡ (fail einval, block)
unfolding init
refused_init block count flags odd = ground arith

init-UncheckedInit :
    (block : Ring) (count flags : ℕ)
    → bad_count (sized count flags) ≡ false
    → UncheckedInit flags block (init block count flags) (init block count flags).1
init-UncheckedInit block count flags good =
    elim (ℕ_discrete (bit_and flags (not32 ring_f_mask)) 0) [
      | no odd ↦ rw (refused_init block count flags odd) (unmade odd)
      | yes known ↦ elim (ℕ_discrete (bit_and flags ring_f_exact_sz) 0) [
        | yes plain ↦
            let fine : bad_count count ≡ false = ground (arith, plain) in
            rw (init_plain block count flags known plain fine) (made known)
        | no exact ↦ rw (init_exact block count flags known exact) (made known)
      ]
    ]

-- A size that `rte_ring_get_memsize_elem` answers is that of a good count.
get_memsize_good : (count size : ℕ) → get_memsize_elem 8 count ≡ some size → bad_count count ≡ false
unfolding get_memsize_elem
get_memsize_good count size e = elim (Bool-cases (bad_count count)) [
  | inl bad ↦ absurd (ground arith)
  | inr good ↦ good
]

-- When `rte_ring_create` returns a ring, `malloc` gave a block for which one of two cases holds:
-- the flags are all supported, `rte_ring_init` of the block returns 0, and the ring returned is
-- the one that it made; or there is an unsupported flag, `rte_ring_init` of the block returns
-- `-EINVAL`, and the ring returned is the block as it came from `malloc`.
pub create-UncheckedInit :
    (malloc : ℕ → Option Ring) (count flags : ℕ) {r : Ring}
    → create malloc count flags ≡ some r
    → (size : ℕ) × (block : Ring) × (malloc size ≡ some block)
      × UncheckedInit flags block (init block count flags) r
unfolding create create_elem
create-UncheckedInit malloc count flags {r} e =
    elim (Option-cases (get_memsize_elem 8 (sized count flags))) [
      | inl none_asked ↦ absurd (ground arith)
      | inr (size, asked) ↦ elim (Option-cases (malloc size)) [
        | inl failed ↦ absurd (ground arith)
        | inr (block, got) ↦
            let same : r ≡ (init block count flags).1 = ground arith in
            (
              size,
              block,
              got,
              rw same (
                  init-UncheckedInit block count flags
                    (get_memsize_good (sized count flags) size asked)),
            )
      ]
    ]
