-- ===== src/Base/Errno.antt =====
-- The error numbers of Linux that the program returns and compares, and the limits of its
-- integer types.
use Prim.Native.Nat.{ℕ, ◌^◌}

abbrev pub eperm : ℕ
eperm = 1

abbrev pub enoent : ℕ
enoent = 2

abbrev pub eintr : ℕ
eintr = 4

abbrev pub eio : ℕ
eio = 5

abbrev pub e2big : ℕ
e2big = 7

abbrev pub enomem : ℕ
enomem = 12

abbrev pub eexist : ℕ
eexist = 17

abbrev pub einval : ℕ
einval = 22

abbrev pub erange : ℕ
erange = 34

abbrev pub eproto : ℕ
eproto = 71

abbrev pub enotsup : ℕ
enotsup = 95

abbrev pub etimedout : ℕ
etimedout = 110

abbrev pub u32_mod : ℕ
u32_mod = 2 ^ 32

abbrev pub u64_mod : ℕ
u64_mod = 2 ^ 64
