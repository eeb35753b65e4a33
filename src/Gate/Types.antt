-- ===== src/Gate/Types.antt =====
-- The structs and constants of include/gatebench_gate.h and include/gatebench.h, and the numbers of
-- linux/tc_act/tc_gate.h, linux/pkt_cls.h, linux/rtnetlink.h and linux/netlink.h that they go with.
use gatebench.Base.{
  ℕ, ◌-◌, ◌^◌, ◌<◌, ◌≡◌, Bool, Option, none, some, [], List, ℤ, pos, negsuc, arith, u32_mod, ltb,
  if◌then◌else◌,
}
use gatebench.Base.Libc.{Bytes}

pub record GateShape : Type 0 where
  pub clockid : ℕ
  pub base_time : ℕ
  pub cycle_time : ℕ
  pub cycle_time_ext : ℕ
  pub interval_ns : ℕ
  pub entries : ℕ

pub record GateEntry : Type 0 where
  pub index : ℕ
  pub gate_state : Bool
  pub interval : ℕ
  pub ipv : ℤ
  pub maxoctets : ℤ

-- `entries` holds the `num_entries` cells in use; `tm` is the copy of a struct tcf_t.
pub record GateDump : Type 0 where
  pub index : ℕ
  pub clockid : ℕ
  pub base_time : ℕ
  pub cycle_time : ℕ
  pub cycle_time_ext : ℕ
  pub flags : ℕ
  pub priority : ℤ
  pub entries : List GateEntry
  pub num_entries : ℕ
  -- struct tcf_t; `none` if bytes from behind the attribute were read into it
  pub tm : Option Bytes
  pub has_tm : Bool
  pub has_basic_stats : Bool
  pub has_queue_stats : Bool
  pub bytes : ℕ
  pub packets : ℕ
  pub drops : ℕ
  pub overlimits : ℕ

-- The dump without its entries; `none` for NULL.
abbrev pub gb_gate_dump_free : Option GateDump → Option GateDump
gb_gate_dump_free none = none
gb_gate_dump_free (some dump) = some (record dump { entries = []; num_entries = 0 })

-- struct gb_nl_msg; `buf` is `none` for NULL
pub record NlMsg (Buf : Type 0) : Type 0 where
  pub buf : Option Buf
  pub cap : ℕ
  pub len : ℕ

-- (uint32_t)value of an int32_t, and (int32_t)value of a uint32_t
abbrev pub to_u32 : ℤ → ℕ
to_u32 (pos n) = n
to_u32 (negsuc n) = u32_mod - 1 - n

abbrev pub to_s32 : ℕ → ℤ
to_s32 v = if ltb v (2 ^ 31) then pos v else negsuc (u32_mod - 1 - v)

-- A value of int32_t.
abbrev pub IsS32 : ℤ → Type 0
IsS32 (pos n) = n < 2 ^ 31
IsS32 (negsuc n) = n < 2 ^ 31

pub to_s32-to_u32 : (v : ℤ) → IsS32 v → to_s32 (to_u32 v) ≡ v
to_s32-to_u32 (pos n) h = ground arith
to_s32-to_u32 (negsuc n) h = ground arith

pub to_u32_range : (v : ℤ) → IsS32 v → to_u32 v < 2 ^ 32
to_u32_range (pos n) h = omega arith
to_u32_range (negsuc n) h = omega arith
