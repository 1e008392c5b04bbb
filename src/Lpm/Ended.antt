-- ===== src/Lpm/Ended.antt =====
-- How `rte_lpm_delete` of lpm/lpm.c ends.
use dpdk_code_modify.Base.{ℕ, ◌-◌, ◌*◌, ◌/◌, ◌≤◌, ◌<◌, ◌≡◌, ◌⊎◌, false, arith, ==_self}
use dpdk_code_modify.Base.Errno.{Status, done, fail, einval}
use dpdk_code_modify.Lpm.Types.{Lpm}
use dpdk_code_modify.Lpm.Prefix.{base}
use dpdk_code_modify.Lpm.Lookup.{is_extended}
use dpdk_code_modify.Lpm.Api.{Recycle, in_use, unlink}
use dpdk_code_modify.Lpm.Recycle.{
  RecycleOutcome, nothing_valid, one_depth, one_valid, deep, two_depths,
}
use dpdk_code_modify.Lpm.Groups.{HasRule}
use dpdk_code_modify.Lpm.Written.{IsAbsent}
use dpdk_code_modify.Lpm.Removed.{IsRemoved}
use dpdk_code_modify.Lpm.Best.{IsRouting}

-- The tbl8 group behind the tbl24 entry `i`, after a rule of depth `d` has gone. A rule of depth 24
-- at most has no group; otherwise the group is unlinked, or it is still needed: it has a valid entry,
-- but its entries are not all valid with one depth of 24 at most.
pub data GroupOutcome (d i : ℕ) (l : Lpm) : Type 0 where
  no_group : d ≤ 24 → GroupOutcome d i l
  unlinked : is_extended (l.tbl24 i) ≡ false → GroupOutcome d i l
  needed : RecycleOutcome l.tbl8 ((l.tbl24 i).next_hop * 256) in_use → GroupOutcome d i l

-- How `rte_lpm_delete` of a rule of depth `d` ends. The rule was there, it and no other has gone
-- from the rule table, every address has the answer of longest-prefix match over the rules that
-- are left, and its group does not outlast its use; or there was no rule; or the depth is none. In
-- the last two cases nothing changes.
pub data DeleteOutcome (l : Lpm) (ip d : ℕ) : Status × Lpm → Type 0 where
  gone :
      {l' : Lpm} {n : ℕ}
      → HasRule l (d - 1) (base ip d) n
      → IsRemoved l (d - 1) (base ip d) l'
      → IsRouting l'
      → GroupOutcome d (base ip d / 256) l'
      → DeleteOutcome l ip d (done, l')
  no_rule : 1 ≤ d → d ≤ 32 → IsAbsent l (d - 1) (base ip d) → DeleteOutcome l ip d (fail einval, l)
  no_depth : (d < 1) ⊎ (32 < d) → DeleteOutcome l ip d (fail einval, l)

-- The group at the end of `delete_depth_big`.
pub unlink-GroupOutcome :
    (d i : ℕ) (l : Lpm) (r : Recycle)
    → RecycleOutcome l.tbl8 ((l.tbl24 i).next_hop * 256) r
    → GroupOutcome d i (unlink i r l)
unfolding unlink
unlink-GroupOutcome d i l _ (nothing_valid none_there) = unlinked (ground (arith, ==_self i))
unlink-GroupOutcome d i l _ (one_depth hit low same) = unlinked (ground (arith, ==_self i))
unlink-GroupOutcome d i l _ (one_valid j le lt miss hit) = needed (one_valid j le lt miss hit)
unlink-GroupOutcome d i l _ (deep hit over) = needed (deep hit over)
unlink-GroupOutcome d i l _ (two_depths j le lt hit other) = needed (two_depths j le lt hit other)
