-- ===== src/Lpm/Tests.antt =====
-- Runs of the table of lpm/lpm.c on concrete tables.
use dpdk_code_modify.Base.{
  ℕ, ◌*◌, ◌/◌, ◌%◌, ◌≡◌, refl, true, false, ◌&&◌, none, some, arith, if◌then◌else◌, ◌==◌, inr, ◌^◌,
  Option,
}
use dpdk_code_modify.Base.Errno.{done, fail, enoent}
use dpdk_code_modify.Base.Loops.{within}
use dpdk_code_modify.Lpm.Types.{Rule, Entry, entry, entry_word, Lpm, depth_to_mask}
use dpdk_code_modify.Lpm.Tables.{add_depth_big}
use dpdk_code_modify.Lpm.Lookup.{lookup, view}
use dpdk_code_modify.Lpm.Cells.{IsLinked, overlay}
use dpdk_code_modify.Lpm.Big.{BigOutcome, add_depth_big-BigOutcome}
use dpdk_code_modify.Lpm.Rules.{insert_rule, make_room, shift_up, fresh_index, rule_add}
use dpdk_code_modify.Lpm.Create.{Config, create, CreatedFrom, create-CreatedFrom, create_overflow}
use dpdk_code_modify.Lpm.Api.{settle_rule, add}

-- Two tbl8 groups, the first in use for the addresses 10.0.0.0 to 10.0.0.255, with a host route for
-- 10.0.0.3; 10.0.1.0/24 has a next hop.
abbrev routes : Lpm
routes = record {
  tbl24 = λ i.
      if i == 0x0a0000
      then entry 0 true true 0
      else if i == 0x0a0001
      then entry 7 true false 24
      else entry 0 false false 0;
  tbl8 = λ j.
      if j == 0
      then entry 0 false true 0
      else if j == 3
      then entry 5 true false 32
      else entry 0 false false 0;
  max_rules = 8;
  number_tbl8s = 2;
  rule_info = λ i.
      if i == 23
      then record { used_rules = 1; first_rule = 0 }
      else if i == 31
      then record { used_rules = 1; first_rule = 1 }
      else record { used_rules = 0; first_rule = 0 };
  rules_tbl = λ i.
      if i == 0
      then record { ip = 0x0a000100; next_hop = 7 }
      else record { ip = 0x0a000003; next_hop = 5 };
}

routes-IsLinked : IsLinked routes
routes-IsLinked = record {
  few = omega arith;
  narrow24 = λ i. ground arith;
  shallow = λ i. ground arith;
  narrow8 = λ j. ground arith;
  inside = λ i ext. ground arith;
  marked = λ i ext. ground arith;
  apart = λ i j ei ej same. ground arith;
}

-- The host route answers, its neighbour misses, and the plain entry answers.
lookup_host : lookup routes 0x0a000003 ≡ (done, 5)
unfolding lookup entry_word
lookup_host = refl

lookup_neighbour : (lookup routes 0x0a000004).0 ≡ fail enoent
unfolding lookup entry_word
lookup_neighbour = refl

-- A route of depth 30 in the range of the plain entry, which takes the second group.
add_depth_big-BigOutcome_example :
    BigOutcome routes
      (λ l'.
        (q : ℕ)
        → view l' q ≡ (
            if (q / 256 == 0x0a0001) && within 4 4 (q % 256)
            then overlay 30 9 (view routes q)
            else view routes q))
      0x0a0001
      (add_depth_big routes 0x0a000104 30 9)
add_depth_big-BigOutcome_example =
    add_depth_big-BigOutcome routes 0x0a000104 30 9 routes-IsLinked (omega arith) (omega arith)
      (omega arith) (omega arith)

-- Memory with a cleared tbl24, and two configurations.
abbrev blank : Lpm
blank = record routes { tbl24 = λ _. entry 0 false false 0 }

abbrev small_config : Config
small_config = record { max_rules = 8; number_tbl8s = 2 }

abbrev huge_config : Config
huge_config = record { max_rules = 8; number_tbl8s = 2 ^ 22 }

abbrev malloc_lpm : ℕ → Option Lpm
malloc_lpm size = some blank

abbrev malloc_rules : ℕ → Option (ℕ → Rule)
malloc_rules size = some routes.rules_tbl

-- Only empty blocks are left.
abbrev malloc_tbl8 : ℕ → Option (ℕ → Entry)
malloc_tbl8 size = if size == 0 then some routes.tbl8 else none

abbrev malloc_any : ℕ → Option (ℕ → Entry)
malloc_any size = some routes.tbl8

create-small : create malloc_lpm malloc_rules malloc_any true small_config ≡ inr blank
unfolding create
create-small = refl

create-huge :
    create malloc_lpm malloc_rules malloc_tbl8 true huge_config
    ≡ inr (record blank { number_tbl8s = 2 ^ 22 })
unfolding create
create-huge = refl

create-CreatedFrom_example :
    CreatedFrom malloc_lpm malloc_rules malloc_any (8 * 8) (1024 * 2) small_config blank
create-CreatedFrom_example =
    create-CreatedFrom malloc_lpm malloc_rules malloc_any true small_config (omega arith)
      (omega arith) create-small

create_overflow_example : malloc_tbl8 0 ≡ some routes.tbl8
create_overflow_example =
    create_overflow malloc_lpm malloc_rules malloc_tbl8 true huge_config (omega arith) create-huge

added-routes : add routes 0x0a000901 16 9 ≡ (done, (add routes 0x0a000901 16 9).1)
unfolding add settle_rule rule_add insert_rule make_room shift_up fresh_index depth_to_mask
added-routes = refl
