-- ===== src/Lpm/Main.antt =====
-- lpm/main.c with the lock: threads that add routes to one table, a call of `rte_lpm_add` at a time.
use dpdk_code_modify.Base.{ℕ, ◌+◌, ◌*◌, ◌^◌, ◌<◌, ◌≡◌, Option, some, none, store}
use dpdk_code_modify.Lpm.Types.{Lpm}
use dpdk_code_modify.Lpm.Api.{add}
use dpdk_code_modify.Lpm.Create.{Config}

abbrev pub threads_num : ℕ
threads_num = 200

abbrev pub max_lpm_rules : ℕ
max_lpm_rules = 256 * threads_num

-- The configuration that `main` passes.
abbrev pub main_config : Config
main_config = record { max_rules = max_lpm_rules; number_tbl8s = 256 }

-- The number of "192.i.j.x", which `htonl(dst_ip.s_addr)` is after `inet_aton`.
abbrev pub address : ℕ → ℕ → ℕ → ℕ
address i j x = 192 * 2 ^ 24 + i * 2 ^ 16 + j * 2 ^ 8 + x

-- Where a thread stands in `add_lpm_entries`, with its `j`: before the lock, with the lock, and with
-- the lock and the route added. `ready 255` is behind the loop.
pub data Worker : Type 0 where
  ready locked added : (j : ℕ) → Worker

-- The table, who holds `lpm_mutex`, and the threads.
pub record Program : Type 0 where
  pub table : Lpm
  pub mutex : Option ℕ
  pub workers : ℕ → Worker

-- One step of thread `i`. Only the holder of the lock calls `rte_lpm_add`, so that its call is one step.
pub data Work (l : Lpm) (m : Option ℕ) (i : ℕ) : Worker → Lpm → Option ℕ → Worker → Type 0 where
  take_lock : {j : ℕ} → j < 255 → m ≡ none → Work l m i (ready j) l (some i) (locked j)
  add_route : {j : ℕ} → Work l m i (locked j) (add l (address i j 0) 24 i).1 m (added j)
  release : {j : ℕ} → Work l m i (added j) l none (ready (j + 1))

pub data Goes (s : Program) : Program → Type 0 where
  goes :
      (i : ℕ) {l : Lpm} {m : Option ℕ} {w : Worker}
      → i < threads_num
      → Work s.table s.mutex i (s.workers i) l m w
      → Goes s (record { table = l; mutex = m; workers = store s.workers i w })

pub data Run (s : Program) : Program → Type 0 where
  begin : Run s s
  more : {t u : Program} → Run s t → Goes t u → Run s u

-- `main` once the threads are created.
abbrev pub created : Lpm → Program
created l = record { table = l; mutex = none; workers = λ _. ready 0 }
