-- ===== src/Ring/Queue.antt =====
-- What a client of ring/ring.c is promised: a first-in first-out queue of at most `cap` pointers.
use dpdk_code_modify.Base.{ℕ, List, [], ◌∷◌, ◌++◌, length, ltb, if◌then◌else◌}
use dpdk_code_modify.Base.Errno.{Status, done, fail, enobufs, enoent}

-- A call of the public interface.
pub data Call : Type 0 where
  put : ℕ → Call
  get : Call

-- The status, and the pointer that `*obj_p` holds after a `get` (0 after a `put`).
abbrev pub Reply : Type 0
Reply = Status × ℕ

abbrev pub push : ℕ → List ℕ → ℕ → Status × List ℕ
push cap q x = if ltb (length q) cap then (done, q ++ x ∷ []) else (fail enobufs, q)

abbrev pub pop : ℕ → List ℕ → Status × ℕ × List ℕ
pop old [] = (fail enoent, old, [])
pop old (x ∷ q) = (done, x, q)

-- The replies of a bounded queue to a sequence of calls; `old` is what `*obj_p` holds before a call.
unfoldable pub run : ℕ → ℕ → List ℕ → List Call → List Reply
run cap old q [] = []
run cap old q (put x ∷ cs) = let (s, q') = push cap q x in (s, 0) ∷ run cap old q' cs
run cap old q (get ∷ cs) = let (s, x, q') = pop old q in (s, x) ∷ run cap old q' cs
