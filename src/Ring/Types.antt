-- ===== src/Ring/Types.antt =====
-- The structures and enumerations of ring/ring.h.
use dpdk_code_modify.Base.{ℕ, Bool, true, false}

-- `enum rte_ring_queue_behavior`
pub data Behavior : Type 0 where
  fixed variable : Behavior

-- `enum rte_ring_sync_type`; MT is 0 and ST is 1.
pub data SyncType : Type 0 where
  mt st : SyncType

-- The value as `is_sp`, `is_sc` and `single` test it.
abbrev pub is_single : SyncType → Bool
is_single mt = false
is_single st = true

-- `struct rte_ring_headtail`
pub record HeadTail : Type 0 where
  pub head : ℕ
  pub tail : ℕ
  pub sync_type : SyncType

-- `struct rte_ring`, and the words behind it, `&r[1]`, that hold the elements. The words are those
-- of the copy routine that the element size selects: 8 bytes for `esize == 8`, else 4 bytes.
pub record Ring : Type 0 where
  pub flags : ℕ
  pub size : ℕ
  pub mask : ℕ
  pub capacity : ℕ
  pub prod : HeadTail
  pub cons : HeadTail
  pub slots : ℕ → ℕ
