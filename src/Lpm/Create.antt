-- ===== src/Lpm/Create.antt =====
-- `rte_lpm_create` of lpm/lpm.c.
use dpdk_code_modify.Base.{
  ℕ, ◌+◌, ◌*◌, ◌%◌, ◌^◌, ◌≤◌, ◌<◌, ◌≡◌, Bool, false, not, ◌||◌, Option, none, some, arith, ltb,
  ◌==◌, if◌then◌else◌, ◌⊎◌, inl, inr, Bool-cases, Option-cases,
}
use dpdk_code_modify.Base.Errno.{Errno, einval, enomem}
use dpdk_code_modify.Base.Words.{mul32}
use dpdk_code_modify.Lpm.Types.{Entry, entry, Rule, Lpm, tbl8_group_num_entries}
use dpdk_code_modify.Lpm.Cells.{IsLinked}

-- `struct rte_lpm_config`, without the field that nothing reads.
pub record Config : Type 0 where
  pub max_rules : ℕ
  pub number_tbl8s : ℕ

abbrev pub rte_lpm_max_tbl8_num_groups : ℕ
rte_lpm_max_tbl8_num_groups = 2 ^ 24

-- `sizeof(struct __rte_lpm)`, `sizeof(struct rte_lpm_rule)` and `sizeof(struct rte_lpm_tbl_entry)`
abbrev pub sizeof_lpm : ℕ
sizeof_lpm = 4 * 2 ^ 24 + 8 + 32 + 4 + 4 + 8 * 32 + 8

abbrev pub sizeof_rule : ℕ
sizeof_rule = 8

abbrev pub sizeof_entry : ℕ
sizeof_entry = 4

-- The three blocks that `malloc` gives for a size, each with whatever it holds.
module _ (malloc : ℕ → Option Lpm) (malloc_rules : ℕ → Option (ℕ → Rule))
    (malloc_tbl8 : ℕ → Option (ℕ → Entry)) where
  -- `rte_lpm_create`; the first argument says whether the name is there. `inl` is NULL with `errno`.
  unfoldable pub create : Bool → Config → Errno ⊎ Lpm
  create has_name config =
      if not has_name
        || config.max_rules == 0
        || ltb rte_lpm_max_tbl8_num_groups config.number_tbl8s
      then inl einval
      else (let rules_size = mul32 sizeof_rule config.max_rules in
          let tbl8s_size = mul32 (sizeof_entry * tbl8_group_num_entries) config.number_tbl8s in
          elim (malloc sizeof_lpm) [
            | none ↦ inl enomem
            | some i_lpm ↦ elim (malloc_rules rules_size) [
              | none ↦ inl enomem
              | some rules_tbl ↦ elim (malloc_tbl8 tbl8s_size) [
                | none ↦ inl enomem
                | some tbl8 ↦ inr (record i_lpm {
                  rules_tbl = rules_tbl;
                  tbl8 = tbl8;
                  max_rules = config.max_rules;
                  number_tbl8s = config.number_tbl8s;
                })
              ]
            ]
          ])

  -- What a table that `create` hands out is made of.
  pub record CreatedFrom (rules_size tbl8s_size : ℕ) (config : Config) (l : Lpm) : Type 0 where
    pub rules_block : malloc_rules rules_size ≡ some l.rules_tbl
    pub tbl8_block : malloc_tbl8 tbl8s_size ≡ some l.tbl8
    pub asked : (l.max_rules ≡ config.max_rules) × (l.number_tbl8s ≡ config.number_tbl8s)
    pub groups_le : config.number_tbl8s ≤ 2 ^ 24
    pub rules_pos : 0 < config.max_rules

  create-wrapped :
      (has_name : Bool) (config : Config) {l : Lpm}
      → create has_name config ≡ inr l
      → CreatedFrom (mul32 8 config.max_rules) (mul32 1024 config.number_tbl8s) config l
  unfolding create
  create-wrapped has_name config {l} e =
      elim (Bool-cases (
        not has_name
        || config.max_rules == 0
        || ltb rte_lpm_max_tbl8_num_groups config.number_tbl8s)) [
          | inl bad ↦ absurd (ground arith)
          | inr good ↦ elim (Option-cases (malloc sizeof_lpm)) [
            | inl failed ↦ absurd (ground arith)
            | inr (i_lpm, got) ↦ elim (Option-cases (malloc_rules (mul32 8 config.max_rules))) [
              | inl failed ↦ absurd (ground arith)
              | inr (rules, got_rules) ↦
                  elim (Option-cases (malloc_tbl8 (mul32 1024 config.number_tbl8s))) [
                    | inl failed ↦ absurd (ground arith)
                    | inr (tbl8, got_tbl8) ↦ record {
                      rules_block = ground arith;
                      tbl8_block = ground arith;
                      asked = (ground arith, ground arith);
                      groups_le = ground arith;
                      rules_pos = ground arith;
                    }
                  ]
            ]
          ]
        ]

  -- For fewer than 2 ^ 29 rules and fewer than 2 ^ 22 tbl8 groups, a table that `rte_lpm_create`
  -- makes has a block of 8 bytes for each rule and of 1024 bytes for each tbl8 group, and records
  -- the configuration, which has at least one rule.
  pub create-CreatedFrom :
      (has_name : Bool) (config : Config) {l : Lpm}
      → config.max_rules < 2 ^ 29
      → config.number_tbl8s < 2 ^ 22
      → create has_name config ≡ inr l
      → CreatedFrom (8 * config.max_rules) (1024 * config.number_tbl8s) config l
  create-CreatedFrom has_name config few_rules few_groups e =
      let rules : mul32 8 config.max_rules ≡ 8 * config.max_rules = omega arith in
      let groups : mul32 1024 config.number_tbl8s ≡ 1024 * config.number_tbl8s = omega arith in
      rw (← rules, ← groups) (create-wrapped has_name config e)

  -- For a multiple of 2 ^ 22 tbl8 groups the size of the tbl8 table wraps to 0: a table that
  -- `rte_lpm_create` makes has a block of 0 bytes as its tbl8.
  pub create_overflow :
      (has_name : Bool) (config : Config) {l : Lpm}
      → config.number_tbl8s % 2 ^ 22 ≡ 0
      → create has_name config ≡ inr l
      → malloc_tbl8 0 ≡ some l.tbl8
  create_overflow has_name config many e =
      let none_left : mul32 1024 config.number_tbl8s ≡ 0 = omega arith in
      let made = create-wrapped has_name config e in rw none_left at made.tbl8_block

  -- A table that `rte_lpm_create` makes for fewer than 2 ^ 23 tbl8 groups is linked, provided that
  -- the memory of its tbl24 came cleared and the next hops in its tbl8 have 24 bits.
  pub create-IsLinked :
      (has_name : Bool) (config : Config) {l : Lpm}
      → config.number_tbl8s < 2 ^ 23
      → create has_name config ≡ inr l
      → ((i : ℕ) → l.tbl24 i ≡ entry 0 false false 0)
      → ((j : ℕ) → (l.tbl8 j).next_hop < 2 ^ 24)
      → IsLinked l
  create-IsLinked has_name config {l} few e blank narrow =
      let made = create-wrapped has_name config e in
      let same = made.asked.1 in
      record {
        few = omega arith;
        narrow24 = λ i. ground (arith, blank i);
        shallow = λ i. ground (arith, blank i);
        narrow8 = narrow;
        inside = λ i ext. ground (arith, blank i);
        marked = λ i ext. ground (arith, blank i);
        apart = λ i j ei ej h. ground (arith, blank i);
      }
