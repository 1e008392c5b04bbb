-- ===== src/Lpm/Recycle.antt =====
-- `tbl8_recycle_check` of lpm/lpm.c.
use dpdk_code_modify.Base.{
  ℕ, zero, suc, ◌+◌, ◌^◌, ◌≤◌, ◌<◌, ◌≡◌, ◌≢◌, Bool, true, false, not, arith, ltb, leb, ◌==◌,
  Bool-cases, inl, inr,
}
use dpdk_code_modify.Base.Words.{add32}
use dpdk_code_modify.Lpm.Types.{Entry}
use dpdk_code_modify.Lpm.Api.{Recycle, in_use, empty, uniform, all_from, tbl8_recycle_check}

all_from_end :
    (fuel i end : ℕ) (stop : Entry → Bool) (t : ℕ → Entry) (j : ℕ)
    → end ≤ i + fuel
    → end < 2 ^ 32
    → all_from fuel i end stop t ≡ true
    → i ≤ j
    → j < end
    → stop (t j) ≡ false
unfolding all_from
all_from_end zero i end stop t j enough w e le lt = absurd (omega arith)
all_from_end (suc fuel) i end stop t j enough w e le lt =
    ground (arith, all_from_end fuel (i + 1) end stop t j)

all_from_stop :
    (fuel i end : ℕ) (stop : Entry → Bool) (t : ℕ → Entry)
    → end < 2 ^ 32
    → all_from fuel i end stop t ≡ false
    → (j : ℕ) × (i ≤ j) × (j < end) × (stop (t j) ≡ true)
unfolding all_from
all_from_stop zero i end stop t w e = absurd (ground arith)
all_from_stop (suc fuel) i end stop t w e = elim (Bool-cases (ltb i end)) [
  | inr over ↦ absurd (ground arith)
  | inl more ↦ elim (Bool-cases (stop (t i))) [
    | inl stopped ↦ (i, omega arith, ground arith, stopped)
    | inr going ↦
        let (j, le, lt, at) = all_from_stop fuel (i + 1) end stop t w (ground arith) in
        (j, omega arith, lt, at)
  ]
]

-- What the result says of the 256 entries from `start` on.
pub data RecycleOutcome (t : ℕ → Entry) (start : ℕ) : Recycle → Type 0 where
  nothing_valid :
      ((j : ℕ) → start ≤ j → j < start + 256 → (t j).valid ≡ false) → RecycleOutcome t start empty
  one_depth :
      (t start).valid ≡ true
      → (t start).depth ≤ 24
      → ((j : ℕ) → start ≤ j → j < start + 256 → (t j).depth ≡ (t start).depth)
      → RecycleOutcome t start (uniform start)
  one_valid :
      (j : ℕ)
      → start ≤ j
      → j < start + 256
      → (t start).valid ≡ false
      → (t j).valid ≡ true
      → RecycleOutcome t start in_use
  deep : (t start).valid ≡ true → 24 < (t start).depth → RecycleOutcome t start in_use
  two_depths :
      (j : ℕ)
      → start ≤ j
      → j < start + 256
      → (t start).valid ≡ true
      → (t j).depth ≢ (t start).depth
      → RecycleOutcome t start in_use

module _ (t : ℕ → Entry) (start : ℕ) (fits : start + 256 < 2 ^ 32) where
  abbrev differs : Entry → Bool
  differs e = not (e.depth == (t start).depth)

  pub tbl8_recycle_check-RecycleOutcome : RecycleOutcome t start (tbl8_recycle_check t start)
  unfolding tbl8_recycle_check
  tbl8_recycle_check-RecycleOutcome =
      let next : add32 start 1 ≡ start + 1 = omega arith in
      let end : add32 start 256 ≡ start + 256 = omega arith in
      elim (Bool-cases (t start).valid) [
        | inl hit ↦ elim (Bool-cases (leb (t start).depth 24)) [
          | inr over ↦ rw (hit, over, tbl8_recycle_check) (deep hit (ground arith))
          | inl low ↦ elim (Bool-cases (all_from 255 (start + 1) (start + 256) differs t)) [
            | inl all ↦
                rw (hit, low, next, end, all, tbl8_recycle_check)
                  (one_depth hit (ground arith) (λ j le lt. ground (
                    arith,
                    all_from_end 255 (start + 1) (start + 256) differs t j (omega arith) fits all,
                  )))
            | inr some_other ↦
                let (j, le, lt, at) =
                  all_from_stop 255 (start + 1) (start + 256) differs t fits some_other in
                rw (hit, low, next, end, some_other, tbl8_recycle_check)
                  (two_depths j (omega arith) lt hit (ground arith))
          ]
        ]
        | inr miss ↦ elim (Bool-cases (all_from 255 (start + 1) (start + 256) (λ e. e.valid) t)) [
          | inl all ↦
              rw (miss, next, end, all, tbl8_recycle_check)
                (nothing_valid (λ j le lt. ground (
                  arith,
                  all_from_end 255 (start + 1) (start + 256) (λ e. e.valid) t j (omega arith) fits
                      all,
                )))
          | inr some_valid ↦
              let (j, le, lt, at) =
                all_from_stop 255 (start + 1) (start + 256) (λ e. e.valid) t fits some_valid in
              rw (miss, next, end, some_valid, tbl8_recycle_check)
                (one_valid j (omega arith) lt miss at)
        ]
      ]
