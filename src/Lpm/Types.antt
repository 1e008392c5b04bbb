-- ===== src/Lpm/Types.antt =====
-- The structures of lpm/lpm.h, and the masks and ranges of a depth.
use dpdk_code_modify.Base.{ℕ, ◌+◌, ◌-◌, ◌*◌, ◌/◌, ◌%◌, ◌^◌, Bool, true, false, leb, if◌then◌else◌}

-- `struct rte_lpm_tbl_entry`; `next_hop` is also the `group_idx` of an extended tbl24 entry.
pub record Entry : Type 0 where
  pub next_hop : ℕ
  pub valid : Bool
  pub valid_group : Bool
  pub depth : ℕ

-- A store to the bit fields keeps 24 bits of the next hop and 6 of the depth.
abbrev pub entry : ℕ → Bool → Bool → ℕ → Entry
entry next_hop valid valid_group depth = record {
  next_hop = next_hop % 2 ^ 24;
  valid = valid;
  valid_group = valid_group;
  depth = depth % 2 ^ 6;
}

abbrev pub bit : Bool → ℕ
bit true = 1
bit false = 0

-- The entry read as one uint32_t: the first field lies in the lowest bits.
unfoldable pub entry_word : Entry → ℕ
entry_word e = e.next_hop + bit e.valid * 2 ^ 24 + bit e.valid_group * 2 ^ 25 + e.depth * 2 ^ 26

-- `struct rte_lpm_rule`
pub record Rule : Type 0 where
  pub ip : ℕ
  pub next_hop : ℕ

-- `struct rte_lpm_rule_info`
pub record RuleInfo : Type 0 where
  pub used_rules : ℕ
  pub first_rule : ℕ

-- `struct __rte_lpm` with its `struct rte_lpm`. The tables are functions of the index.
pub record Lpm : Type 0 where
  pub tbl24 : ℕ → Entry
  pub tbl8 : ℕ → Entry
  pub max_rules : ℕ
  pub number_tbl8s : ℕ
  pub rule_info : ℕ → RuleInfo
  pub rules_tbl : ℕ → Rule

abbrev pub max_depth_tbl24 : ℕ
max_depth_tbl24 = 24

abbrev pub rte_lpm_max_depth : ℕ
rte_lpm_max_depth = 32

abbrev pub tbl8_group_num_entries : ℕ
tbl8_group_num_entries = 256

-- `x >> k` of an `int32_t`, as the word of the result: the sign bit is copied down.
abbrev pub sar32 : ℕ → ℕ → ℕ
sar32 x k = x / 2 ^ k + (if leb (2 ^ 31) x then 2 ^ 32 - 2 ^ (32 - k) else 0)

-- `depth_to_mask`
unfoldable pub depth_to_mask : ℕ → ℕ
depth_to_mask depth = sar32 0x8000_0000 (depth - 1)

-- `depth_to_range`
unfoldable pub depth_to_range : ℕ → ℕ
depth_to_range depth =
    if leb depth max_depth_tbl24
    then 2 ^ (max_depth_tbl24 - depth)
    else 2 ^ (rte_lpm_max_depth - depth)
