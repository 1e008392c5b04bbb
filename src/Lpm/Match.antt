-- ===== src/Lpm/Match.antt =====
-- Clients of lpm/lpm.c: a table from `rte_lpm_create`, calls of `rte_lpm_add` and `rte_lpm_delete`, and
-- what `rte_lpm_lookup` then answers.
use dpdk_code_modify.Base.{ℕ, ◌-◌, ◌/◌, ◌^◌, ◌≤◌, ◌<◌, ◌≡◌, Bool, false, Option, arith, inr}
use dpdk_code_modify.Base.Errno.{Status, done, fail, enoent}
use dpdk_code_modify.Lpm.Types.{Lpm, Rule, Entry, entry}
use dpdk_code_modify.Lpm.Lookup.{lookup, view}
use dpdk_code_modify.Lpm.Added.{Says, lookup-Says}
use dpdk_code_modify.Lpm.Api.{add, delete}
use dpdk_code_modify.Lpm.Create.{Config, create, create-IsLinked}
use dpdk_code_modify.Lpm.Groups.{HasRule}
use dpdk_code_modify.Lpm.Best.{Matches, IsBest, unmatched, deepest, IsRouting}
use dpdk_code_modify.Lpm.Routing.{add-IsRouting}
use dpdk_code_modify.Lpm.Deletion.{delete-IsRouting}

-- Tables after any calls from `l0` on.
pub data Calls (l0 : Lpm) : Lpm → Type 0 where
  start : Calls l0 l0
  adds :
      {l : Lpm} (ip d next_hop : ℕ)
      → Calls l0 l
      → ip < 2 ^ 32
      → 1 ≤ d
      → d ≤ 32
      → next_hop < 2 ^ 24
      → Calls l0 ((add l ip d next_hop).1)
  deletes : {l : Lpm} (ip d : ℕ) → Calls l0 l → ip < 2 ^ 32 → Calls l0 ((delete l ip d).1)

pub Calls-IsRouting : {l0 l : Lpm} → IsRouting l0 → Calls l0 l → IsRouting l
Calls-IsRouting t start = t
Calls-IsRouting t (adds {l} ip d next_hop c word low high hop) =
    add-IsRouting l ip d next_hop (Calls-IsRouting t c) word low high hop
Calls-IsRouting t (deletes {l} ip d c word) = delete-IsRouting l ip d (Calls-IsRouting t c) word

-- Longest-prefix match: the next hop of the deepest rule with the prefix of `q`, or `-ENOENT` where no
-- rule has it.
pub data LookupOutcome (l : Lpm) (q : ℕ) : Status × ℕ → Type 0 where
  matched :
      (d n : ℕ)
      → 1 ≤ d
      → d ≤ 32
      → Matches l q d n
      → ((d' n' : ℕ) → d < d' → d' ≤ 32 → Matches l q d' n' → ⊥)
      → LookupOutcome l q (done, n)
  missed :
      {any : ℕ}
      → ((d n : ℕ) → 1 ≤ d → d ≤ 32 → Matches l q d n → ⊥)
      → LookupOutcome l q (fail enoent, any)

said :
    {l : Lpm} {q : ℕ} (o : Option (ℕ × ℕ)) (r : Status × ℕ)
    → IsBest l q o
    → Says o r
    → LookupOutcome l q r
said _ (s, h) (unmatched none_there) told = rw told (missed none_there)
said _ (s, h) (deepest d n low high m none_deeper) (fine, same) =
    rw (fine, same) (matched d n low high m none_deeper)

-- From a table whose rules are grouped and whose lookup tables are linked and answer as the rules
-- ask, after any calls of `rte_lpm_add` (addresses below 2 ^ 32, depths from 1 to 32, next hops
-- below 2 ^ 24) and of `rte_lpm_delete` (addresses below 2 ^ 32, any depth), `rte_lpm_lookup` of
-- an address below 2 ^ 32 is longest-prefix match over the rules in the rule table: 0 and the next
-- hop of the deepest rule with the prefix of the address, or `-ENOENT` where no rule has it.
pub lookup-LookupOutcome :
    {l0 l : Lpm} → IsRouting l0 → Calls l0 l → (q : ℕ) → q < 2 ^ 32 → LookupOutcome l q (lookup l q)
lookup-LookupOutcome {l} t c q word =
    let u = Calls-IsRouting t c in
    said (view l q) (lookup l q) (u.answers q word) (lookup-Says u.linked q)

module _ (malloc : ℕ → Option Lpm) (malloc_rules : ℕ → Option (ℕ → Rule))
    (malloc_tbl8 : ℕ → Option (ℕ → Entry)) where
  -- A table that `rte_lpm_create` makes for fewer than 2 ^ 23 tbl8 groups is routing, provided
  -- that its tbl24 and its counts of used rules came cleared, the next hops in its tbl8 have 24
  -- bits, and it has room for fewer than 2 ^ 31 rules.
  pub create-IsRouting :
      (has_name : Bool) (config : Config) {l : Lpm}
      → config.number_tbl8s < 2 ^ 23
      → create malloc malloc_rules malloc_tbl8 has_name config ≡ inr l
      → ((i : ℕ) → l.tbl24 i ≡ entry 0 false false 0)
      → ((j : ℕ) → (l.tbl8 j).next_hop < 2 ^ 24)
      → ((j : ℕ) → (l.rule_info j).used_rules ≡ 0)
      → l.max_rules < 2 ^ 31
      → IsRouting l
  create-IsRouting has_name config {l} few e blank narrow none_used few_rules =
      let empty : (j ip n : ℕ) → HasRule l j ip n → ⊥ =
        λ j ip n o. let from = o.from in let to = o.to in ground (arith, none_used j) in
      record {
        linked = create-IsLinked malloc malloc_rules malloc_tbl8 has_name config few e blank narrow;
        grouped = record {
          few = few_rules;
          ends = λ j lt pos. ground (arith, none_used j);
          ordered = λ i j below lt pi pj. ground (arith, none_used i);
          unique = λ j a b lt fa ta fb tb same. ground (arith, none_used j);
        };
        narrow = λ j ip n lt o. absurd (empty j ip n o);
        answers =
            λ q word. rw (blank (q / 256)) (unmatched (λ d n low high m. empty (d - 1) _ n m));
      }
