-- ===== src/Lpm/Served.antt =====
-- What the threads of lpm/main.c leave in the table.
use dpdk_code_modify.Base.{
  ℕ, ◌+◌, ◌^◌, ◌<◌, ◌≡◌, ◌≢◌, refl, ◌∙◌, ◌⊎◌, inl, inr, Bool, true, false, ◌==◌, arith, ==_iff,
  Bool-cases,
}
use mathlib.Core.Path.{subst}
use dpdk_code_modify.Base.Errno.{enospc}
use dpdk_code_modify.Lpm.Types.{Lpm}
use dpdk_code_modify.Lpm.Rules.{Placed, placed, refused, rule_add}
use dpdk_code_modify.Lpm.Api.{settle_rule, add}
use dpdk_code_modify.Lpm.Prefix.{base, masked-base}
use dpdk_code_modify.Lpm.Groups.{IsGrouped, HasRule, SameRules}
use dpdk_code_modify.Lpm.Updated.{RuleChange, changed, known, full}
use dpdk_code_modify.Lpm.Change.{rule_add-RuleChange}
use dpdk_code_modify.Lpm.Kept.{
  SameRuleTable, SameRuleTable-SameRules, add_depth_small-SameRuleTable,
}
use dpdk_code_modify.Lpm.Single.{IsSingle, Fits, placed_there, known_there, rule_add-Fits}

-- The rule table after a route of depth 24 for `ip`: the route is there, and all else is kept.
pub record IsJoined (l : Lpm) (ip next_hop c : ℕ) (l' : Lpm) : Type 0 where
  pub single : IsSingle 24 l' (c + 1)
  pub limit : l'.max_rules ≡ l.max_rules
  pub here : HasRule l' 23 ip next_hop
  pub kept : (ip' n : ℕ) → ip' ≢ ip → HasRule l 23 ip' n → HasRule l' 23 ip' n
  pub only : (ip' n : ℕ) → HasRule l' 23 ip' n → HasRule l 23 ip' n ⊎ ((ip' ≡ ip) × (n ≡ next_hop))

is_full : Placed → Bool
is_full (refused enospc) = true
is_full p = false

Fits-IsSingle : {d c : ℕ} {o : Placed × Lpm} → Fits d c o → IsSingle d (o.1) (c + 1)
Fits-IsSingle (placed_there s) = s
Fits-IsSingle (known_there s) = s

Fits-is_full : {d c : ℕ} {o : Placed × Lpm} → Fits d c o → is_full (o.0) ≡ false
unfolding is_full
Fits-is_full (placed_there s) = refl
Fits-is_full (known_there s) = refl

joined :
    {l : Lpm} {ip next_hop c : ℕ} {o : Placed × Lpm}
    → RuleChange l 23 ip next_hop o
    → IsSingle 24 (o.1) (c + 1)
    → is_full (o.0) ≡ false
    → IsJoined l ip next_hop c (o.1)
unfolding is_full
joined {l} {ip} (changed {l'} i g ch from to at) s roomy = record {
  single = s;
  limit = ch.limit;
  here = ch.here;
  kept = λ ip' n ne r. ch.kept 23 ip' n (omega arith) (ground arith) r;
  only = λ ip' n r. elim (Bool-cases (ip' == ip)) [
    | inl same ↦
        let e : ip' ≡ ip = (==_iff ip' ip).0 same in
        inr (e, ch.alone n (subst (λ x. HasRule l' 23 x n) e r))
    | inr other ↦ inl (ch.only 23 ip' n (omega arith) (ground arith) r)
  ];
}
joined (known there) s roomy = record {
  single = s;
  limit = refl;
  here = there;
  kept = λ ip' n ne r. r;
  only = λ ip' n r. inl r;
}
joined (full g same absent none_free) s roomy = absurd (ground arith)

IsSingle-same : {l l' : Lpm} {d c : ℕ} → SameRuleTable l l' → IsSingle d l c → IsSingle d l' c
IsSingle-same s k = record {
  others = λ j lt ne. rw s.info (k.others j lt ne);
  few = rw s.info k.few;
  front = rw s.info k.front;
}

IsJoined-same :
    {l l' l'' : Lpm} {ip next_hop c : ℕ}
    → SameRuleTable l' l''
    → IsJoined l ip next_hop c l'
    → IsJoined l ip next_hop c l''
IsJoined-same {l' = l'} {l'' = l''} {ip = ip} {next_hop = next_hop} s k = record {
  single = IsSingle-same s k.single;
  limit = s.limit ∙ k.limit;
  here = same.kept 23 ip next_hop (omega arith) k.here;
  kept = λ ip' n ne r. same.kept 23 ip' n (omega arith) (k.kept ip' n ne r);
  only = λ ip' n r. k.only ip' n (same.only 23 ip' n (omega arith) r);
}
  where
    same : SameRules l' l''
    same = SameRuleTable-SameRules s

settled-same :
    (ip next_hop : ℕ) (o : Placed × Lpm) → SameRuleTable (o.1) (settle_rule ip 24 next_hop o).1
unfolding settle_rule
settled-same ip next_hop (placed i, l) = add_depth_small-SameRuleTable 24 next_hop l ip
settled-same ip next_hop (refused e, l) = record { info = refl; rules = refl; limit = refl }

pub add-IsJoined :
    (l : Lpm) (ip next_hop c : ℕ)
    → IsGrouped l
    → ip < 2 ^ 32
    → base ip 24 ≡ ip
    → IsSingle 24 l c
    → c < l.max_rules
    → IsJoined l ip next_hop c (add l ip 24 next_hop).1
unfolding add
add-IsJoined l ip next_hop c g word whole s room =
    let fits = rule_add-Fits 24 (omega arith) (omega arith) ip next_hop l c s room g.few in
    rw (masked-base ip 24 (omega arith) (omega arith) word, whole)
      (IsJoined-same (settled-same ip next_hop (rule_add l ip 24 next_hop)) (
        joined (rule_add-RuleChange 24 ip next_hop (omega arith) (omega arith) l g)
          (Fits-IsSingle fits) (Fits-is_full fits)))
