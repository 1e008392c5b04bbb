-- ===== src/Lpm/Serves.antt =====
-- What holds of lpm/main.c after any steps of its threads under the lock.
use mathlib.Core.Path.{subst}
use dpdk_code_modify.Base.{
  ℕ, ◌+◌, ◌^◌, ◌<◌, ◌≡◌, refl, sym, ap, ◌∙◌, ◌⊎◌, inl, inr, Option, some, none, arith, dec_lt,
  store, store-elim, ℕ_discrete,
}
use dpdk_code_modify.Lpm.Types.{Lpm}
use dpdk_code_modify.Lpm.Api.{add}
use dpdk_code_modify.Lpm.Groups.{HasRule}
use dpdk_code_modify.Lpm.Best.{IsRouting}
use dpdk_code_modify.Lpm.Routing.{add-IsRouting}
use dpdk_code_modify.Lpm.Single.{IsSingle}
use dpdk_code_modify.Lpm.Served.{IsJoined, add-IsJoined}
use dpdk_code_modify.Lpm.Workers.{finished, IsBounded, total, total-store, finished-le, total-le}
use dpdk_code_modify.Lpm.Main.{
  threads_num, max_lpm_rules, address, Worker, ready, locked, added, Program, Work, take_lock,
  add_route, release, goes, Run, begin, more,
}

-- The rules of the table are routes of the threads, and those that the threads have added are there.
pub record Serves (s : Program) : Type 0 where
  pub routing : IsRouting s.table
  pub limit : s.table.max_rules ≡ max_lpm_rules
  pub single : IsSingle 24 s.table (total threads_num s.workers)
  pub bounded : (i : ℕ) → IsBounded (s.workers i)
  pub sound :
      (ip n : ℕ)
      → HasRule s.table 23 ip n
      → (j : ℕ) × (n < threads_num) × (j < 255) × (ip ≡ address n j 0)
  pub there :
      (i j : ℕ)
      → i < threads_num
      → j < finished (s.workers i)
      → HasRule s.table 23 (address i j 0) i

module _ {s : Program} (v : Serves s) (i : ℕ) (lt : i < threads_num) where
  open v use {routing, limit, single, bounded, sound, there}

  still :
      {w : Worker} (m : Option ℕ) (w' : Worker)
      → s.workers i ≡ w
      → finished w' ≡ finished w
      → IsBounded w'
      → Serves (record { table = s.table; mutex = m; workers = store s.workers i w' })
  still {w} m w' here same b = record {
    routing = routing;
    limit = limit;
    single = record {
      others = single.others;
      few =
          omega
            (arith, single.few, total-store threads_num s.workers i w' lt, ap finished here, same);
      front = single.front;
    };
    bounded = λ k. store-elim IsBounded s.workers i w' k b (λ ne. bounded k);
    sound = sound;
    there = λ k j few l. there k j few (ground (arith, same));
  }

  one_more :
      (m : Option ℕ) (j : ℕ)
      → s.workers i ≡ locked j
      → Serves (record {
        table = (add s.table (address i j 0) 24 i).1;
        mutex = m;
        workers = store s.workers i (added j);
      })
  one_more m j here = record {
    routing =
        add-IsRouting s.table (address i j 0) 24 i routing word (omega arith) (omega arith)
          (omega arith);
    limit = new.limit ∙ limit;
    single = record {
      others = new.single.others;
      few = omega (
        arith,
        new.single.few,
        total-store threads_num s.workers i (added j) lt,
        ap finished here,
      );
      front = new.single.front;
    };
    bounded = λ k. store-elim IsBounded s.workers i (added j) k below (λ ne. bounded k);
    sound = λ ip n r. elim (new.only ip n r) [
      | inl old ↦ sound ip n old
      | inr (e, e') ↦ (j, omega arith, below, rw e' e)
    ];
    there = λ k y few l. joined k y few (below_finished k y l);
  }
    where
      below : j < 255
      below = subst IsBounded here (bounded i)

      word : address i j 0 < 2 ^ 32
      word = omega (arith, below)

      room : total threads_num s.workers < s.table.max_rules
      room = omega (arith, limit, total-le threads_num s.workers bounded)

      new :
          IsJoined s.table
            (address i j 0)
            i
            (total threads_num s.workers)
            (add s.table (address i j 0) 24 i).1
      new =
          add-IsJoined s.table (address i j 0) i (total threads_num s.workers) routing.grouped word
            (omega (arith, below)) single room

      below_finished :
          (k y : ℕ)
          → y < finished (store s.workers i (added j) k)
          → (y < 255) × ((k ≡ i) × (y ≡ j) ⊎ (y < finished (s.workers k)))
      below_finished k y l = elim (ℕ_discrete i k) [
        | yes e ↦
            let mine : y < j + 1 = ground (arith, ap finished here) in
            let was : finished (s.workers k) ≡ j =
              ap (λ t. finished (s.workers t)) (sym e) ∙ ap finished here in
            (
              omega (arith, mine, below),
              elim (dec_lt y j) [
                | yes older ↦ inr (omega (arith, was))
                | no last ↦ inl (sym e, omega (arith, mine))
              ],
            )
        | no ne ↦
            let theirs : y < finished (s.workers k) = ground arith in
            (omega (arith, theirs, finished-le (s.workers k) (bounded k)), inr theirs)
      ]

      joined :
          (k y : ℕ)
          → k < threads_num
          → (y < 255) × ((k ≡ i) × (y ≡ j) ⊎ (y < finished (s.workers k)))
          → HasRule (add s.table (address i j 0) 24 i).1 23 (address k y 0) k
      joined k y few (small, inl (e, e')) = rw (e, e') new.here
      joined k y few (small, inr l) = elim (ℕ_discrete (address k y 0) (address i j 0)) [
        | yes same ↦
            let e : k ≡ i = omega (arith, below) in
            let e' : y ≡ j = omega (arith, below) in rw (e, e') new.here
        | no ne ↦ new.kept (address k y 0) k ne (there k y few l)
      ]

  Work-Serves :
      {w w' : Worker} {l : Lpm} {m : Option ℕ}
      → s.workers i ≡ w
      → Work s.table s.mutex i w l m w'
      → Serves (record { table = l; mutex = m; workers = store s.workers i w' })
  Work-Serves here (take_lock {j} more_routes free) =
      still (some i) (locked j) here refl more_routes
  Work-Serves here (add_route {j}) = one_more s.mutex j here
  Work-Serves here (release {j}) =
      still none (ready (j + 1)) here refl (omega (arith, subst IsBounded here (bounded i)))

pub Run-Serves : {s t : Program} → Serves s → Run s t → Serves t
Run-Serves v begin = v
Run-Serves v (more run (goes i lt work)) = Work-Serves (Run-Serves v run) i lt refl work
