-- ===== src/Lpm/Finished.antt =====
-- The lookups of lpm/main.c after any steps of its threads under the lock.
use mathlib.Core.Path.{subst}
use dpdk_code_modify.Base.{ℕ, ◌-◌, ◌^◌, ◌<◌, ◌≡◌, ap, inr, true, false, Option, arith, ℕ_discrete}
use dpdk_code_modify.Base.Errno.{Status, done}
use dpdk_code_modify.Lpm.Types.{Lpm, Rule, Entry, entry}
use dpdk_code_modify.Lpm.Lookup.{lookup}
use dpdk_code_modify.Lpm.Groups.{used, first, HasRule}
use dpdk_code_modify.Lpm.Best.{IsRouting}
use dpdk_code_modify.Lpm.Prefix.{base}
use dpdk_code_modify.Lpm.Match.{
  LookupOutcome, matched, missed, start, lookup-LookupOutcome, create-IsRouting,
}
use dpdk_code_modify.Lpm.Create.{create, create-CreatedFrom}
use dpdk_code_modify.Lpm.Workers.{finished, finished-le}
use dpdk_code_modify.Lpm.Main.{
  threads_num, max_lpm_rules, main_config, address, Program, Run, created,
}
use dpdk_code_modify.Lpm.Serves.{Serves, Run-Serves}

created-Serves :
    (l : Lpm)
    → IsRouting l
    → l.max_rules ≡ max_lpm_rules
    → ((j : ℕ) → (used l j ≡ 0) × (first l j ≡ 0))
    → Serves (created l)
created-Serves l routing limit unused = record {
  routing = routing;
  limit = limit;
  single = record {
    others = λ j lt ne. unused j;
    few = omega (arith, unused 23);
    front = (unused 23).1;
  };
  bounded = λ i. omega arith;
  sound = λ ip n r. absurd (omega (arith, r.from, r.to, unused 23));
  there = λ i j lt l. absurd (omega arith);
}

looked_up :
    {s : Program}
    → Serves s
    → (i j x : ℕ) → i < threads_num
    → j < 255
    → x < 256
    → j < finished (s.workers i)
    → {r : Status × ℕ} → LookupOutcome s.table (address i j x) r
    → r ≡ (done, i)
looked_up {s} v i j x few small low got (matched d n pos high m deeper) = elim (ℕ_discrete d 24) [
  | yes e ↦
      let m' : HasRule s.table 23 (base (address i j x) 24) n =
        subst (λ t. HasRule s.table (t - 1) (base (address i j x) t) n) e m in
      let (y, n_few, y_small, at) = v.sound (base (address i j x) 24) n m' in
      let same : n ≡ i = omega arith in ap (λ t. (done, t)) same
  | no ne ↦
      absurd (omega (arith, (v.single.others (d - 1) (omega arith) (omega arith)).0, m.from, m.to))
]
looked_up {s} v i j x few small low got (missed none_there) =
    let whole : base (address i j x) 24 ≡ address i j 0 = omega arith in
    absurd (none_there 24 i (omega arith) (omega arith) (rw whole (v.there i j few got)))

module _ (malloc : ℕ → Option Lpm) (malloc_rules : ℕ → Option (ℕ → Rule))
    (malloc_tbl8 : ℕ → Option (ℕ → Entry)) where
  -- In lpm/main.c with the lock, when the table that `rte_lpm_create` made came with a cleared
  -- tbl24, cleared counts and first rules of its groups and next hops of 24 bits in its tbl8:
  -- after any steps of the 200 threads, in any order, `rte_lpm_lookup` of every address
  -- `192.i.j.x` whose route thread `i` has added returns 0 and the next hop `i`.
  pub lookup-address :
      {l : Lpm}
      → create malloc malloc_rules malloc_tbl8 true main_config ≡ inr l
      → ((i : ℕ) → l.tbl24 i ≡ entry 0 false false 0)
      → ((j : ℕ) → (l.tbl8 j).next_hop < 2 ^ 24)
      → ((j : ℕ) → (used l j ≡ 0) × (first l j ≡ 0))
      → {s : Program} → Run (created l) s
      → (i j x : ℕ) → i < threads_num
      → j < finished (s.workers i)
      → x < 256
      → lookup s.table (address i j x) ≡ (done, i)
  lookup-address {l} made blank narrow unused {s} run i j x few got low =
      looked_up v i j x few small low got
        (lookup-LookupOutcome v.routing start (address i j x) (omega (arith, small)))
    where
      limit : l.max_rules ≡ max_lpm_rules
      limit =
          (create-CreatedFrom malloc malloc_rules malloc_tbl8 true main_config (omega arith)
            (omega arith) made).asked.0

      v : Serves s
      v =
          Run-Serves
            (created-Serves l
              (create-IsRouting malloc malloc_rules malloc_tbl8 true main_config (omega arith) made
                blank narrow (λ k. (unused k).0) (omega (arith, limit)))
              limit unused)
            run

      small : j < 255
      small = omega (arith, finished-le (s.workers i) (v.bounded i))
