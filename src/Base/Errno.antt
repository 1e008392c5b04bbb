-- ===== src/Base/Errno.antt =====
-- The error numbers that the three programs return, negated, and the status of a call.
pub data Errno : Type 0 where
  einval enoent enobufs enospc eexist enomem : Errno

-- `0`, or `-errno`.
pub data Status : Type 0 where
  done : Status
  fail : Errno → Status
