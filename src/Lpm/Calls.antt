-- ===== src/Lpm/Calls.antt =====
-- Calls of lpm/lpm.c on a table that `rte_lpm_create` made, and on a small rule table.
use dpdk_code_modify.Base.{ℕ, ◌≡◌, refl, true, false, Option, some, arith, inr, ◌==◌, if◌then◌else◌}
use dpdk_code_modify.Lpm.Types.{Lpm, Rule, Entry, entry}
use dpdk_code_modify.Lpm.Rules.{rule_add, rule_delete}
use dpdk_code_modify.Lpm.Api.{add, delete}
use dpdk_code_modify.Lpm.Create.{Config, create}
use dpdk_code_modify.Lpm.Lookup.{lookup}
use dpdk_code_modify.Base.{store}
use dpdk_code_modify.Base.Errno.{done}
use dpdk_code_modify.Lpm.Finished.{lookup-address}
use dpdk_code_modify.Lpm.Main.{
  max_lpm_rules, main_config, address, ready, locked, added, Program, take_lock, add_route, goes,
  Run, begin, more, created as threads_created,
}
use dpdk_code_modify.Lpm.Groups.{IsGrouped}
use dpdk_code_modify.Lpm.Updated.{RuleChange}
use dpdk_code_modify.Lpm.Change.{rule_add-RuleChange}
use dpdk_code_modify.Lpm.Removed.{IsRemoved}
use dpdk_code_modify.Lpm.Deleted.{rule_delete-IsRemoved}
use dpdk_code_modify.Lpm.Best.{IsRouting}
use dpdk_code_modify.Lpm.Routing.{add-IsRouting}
use dpdk_code_modify.Lpm.Ended.{DeleteOutcome}
use dpdk_code_modify.Lpm.Deletion.{delete-DeleteOutcome}
use dpdk_code_modify.Lpm.Added.{AddOutcome, add-AddOutcome}
use dpdk_code_modify.Lpm.Match.{
  Calls, start, adds, deletes, LookupOutcome, lookup-LookupOutcome, create-IsRouting,
}

-- Memory that came cleared, for 8 rules and 2 tbl8 groups.
abbrev cleared : Lpm
cleared = record {
  tbl24 = λ _. entry 0 false false 0;
  tbl8 = λ _. entry 0 false false 0;
  max_rules = 8;
  number_tbl8s = 2;
  rule_info = λ _. record { used_rules = 0; first_rule = 0 };
  rules_tbl = λ _. record { ip = 0; next_hop = 0 };
}

abbrev config : Config
config = record { max_rules = 8; number_tbl8s = 2 }

abbrev malloc : ℕ → Option Lpm
malloc size = some cleared

abbrev malloc_rules : ℕ → Option (ℕ → Rule)
malloc_rules size = some cleared.rules_tbl

abbrev malloc_tbl8 : ℕ → Option (ℕ → Entry)
malloc_tbl8 size = some cleared.tbl8

created : create malloc malloc_rules malloc_tbl8 true config ≡ inr cleared
unfolding create
created = refl

cleared-IsRouting : IsRouting cleared
cleared-IsRouting =
    create-IsRouting malloc malloc_rules malloc_tbl8 true config (omega arith) created (λ i. refl)
      (λ j. omega arith) (λ j. refl) (omega arith)

-- 10.0.0.0/16 and then 10.0.9.0/30.
abbrev one_route : Lpm
one_route = (add cleared 0x0a000901 16 9).1

add-IsRouting_example : IsRouting one_route
add-IsRouting_example =
    add-IsRouting cleared 0x0a000901 16 9 cleared-IsRouting (omega arith) (omega arith)
      (omega arith) (omega arith)

one_route-IsRouting : IsRouting one_route
one_route-IsRouting =
    add-IsRouting cleared 0x0a000901 16 9 cleared-IsRouting (omega arith) (omega arith)
      (omega arith) (omega arith)

-- Below the route of depth 16.
add-AddOutcome_example : AddOutcome one_route 0x0a000901 30 7 (add one_route 0x0a000901 30 7)
add-AddOutcome_example =
    add-AddOutcome one_route 0x0a000901 30 7 one_route-IsRouting.linked one_route-IsRouting.grouped
      (omega arith) (omega arith) (omega arith) (omega arith)

abbrev two_routes : Lpm
two_routes = (add one_route 0x0a000901 30 7).1

two_routes-IsRouting : IsRouting two_routes
two_routes-IsRouting =
    add-IsRouting one_route 0x0a000901 30 7 one_route-IsRouting (omega arith) (omega arith)
      (omega arith) (omega arith)

delete-DeleteOutcome_example :
    DeleteOutcome two_routes 0x0a000902 30 (delete two_routes 0x0a000902 30)
delete-DeleteOutcome_example =
    delete-DeleteOutcome two_routes 0x0a000902 30 two_routes-IsRouting (omega arith)

three-Calls : Calls cleared (delete two_routes 0x0a000902 30).1
three-Calls =
    deletes 0x0a000902 30
      (adds 0x0a000901 30 7
        (adds 0x0a000901 16 9 start (omega arith) (omega arith) (omega arith) (omega arith))
        (omega arith) (omega arith) (omega arith) (omega arith))
      (omega arith)

lookup-LookupOutcome_example :
    let l = (delete two_routes 0x0a000902 30).1 in LookupOutcome l 0x0a000902 (lookup l 0x0a000902)
lookup-LookupOutcome_example =
    lookup-LookupOutcome cleared-IsRouting three-Calls 0x0a000902 (omega arith)

-- A rule of depth 16 and one of depth 24.
abbrev two_rules : Lpm
two_rules = record cleared {
  rule_info = λ i.
      if i == 15
      then record { used_rules = 1; first_rule = 0 }
      else if i == 23
      then record { used_rules = 1; first_rule = 1 }
      else record { used_rules = 0; first_rule = 0 };
  rules_tbl = λ i.
      if i == 0
      then record { ip = 0x0a000000; next_hop = 9 }
      else record { ip = 0x0a000100; next_hop = 7 };
}

two_rules-IsGrouped : IsGrouped two_rules
two_rules-IsGrouped = record {
  few = omega arith;
  ends = λ j lt pos. ground arith;
  ordered = λ i j below lt pi pj. ground arith;
  unique = λ j a b lt fa ta fb tb same. ground arith;
}

rule_add-RuleChange_example :
    RuleChange two_rules 15 0x0a010000 3 (rule_add two_rules 0x0a010000 16 3)
rule_add-RuleChange_example =
    rule_add-RuleChange 16 0x0a010000 3 (omega arith) (omega arith) two_rules two_rules-IsGrouped

rule_delete-IsRemoved_example :
    let l' = rule_delete two_rules 0 16 in IsGrouped l' × IsRemoved two_rules 15 0x0a000000 l'
rule_delete-IsRemoved_example =
    rule_delete-IsRemoved two_rules two_rules-IsGrouped 0 16 (omega arith) (omega arith)
      (omega arith) (omega arith)

-- The table of lpm/main.c, to which thread 1 has added its first route.
abbrev main_table : Lpm
main_table = record cleared { max_rules = max_lpm_rules; number_tbl8s = 256 }

main_created :
    create (λ _. some main_table) malloc_rules malloc_tbl8 true main_config ≡ inr main_table
unfolding create
main_created = refl

abbrev one_added : Program
one_added = record {
  table = (add main_table (address 1 0 0) 24 1).1;
  mutex = some 1;
  workers = store (store (λ _. ready 0) 1 (locked 0)) 1 (added 0);
}

one_run : Run (threads_created main_table) one_added
one_run =
    more (more begin (goes 1 (omega arith) (take_lock (omega arith) refl)))
      (goes 1 (omega arith) add_route)

lookup-address_example : lookup one_added.table (address 1 0 5) ≡ (done, 1)
lookup-address_example =
    lookup-address (λ _. some main_table) malloc_rules malloc_tbl8 main_created (λ i. refl)
      (λ j. omega arith) (λ j. (refl, refl)) one_run 1 0 5 (omega arith) (omega arith) (omega arith)
