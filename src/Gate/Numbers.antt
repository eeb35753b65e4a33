-- ===== src/Gate/Numbers.antt =====
-- The numbers of the messages, flags and attributes that the program names, from the kernel's
-- linux/netlink.h, linux/rtnetlink.h, linux/pkt_cls.h, linux/gen_stats.h and linux/tc_act/tc_gate.h,
-- and GATEBENCH_ACT_PRIO of include/gatebench_gate.h.
use gatebench.Base.{ℕ, [], ◌∷◌}
use gatebench.Base.Libc.{Bytes}

abbrev pub rtm_newaction : ℕ
rtm_newaction = 48

abbrev pub rtm_delaction : ℕ
rtm_delaction = 49

abbrev pub rtm_getaction : ℕ
rtm_getaction = 50

abbrev pub tc_act_pipe : ℕ
tc_act_pipe = 3

abbrev pub nlm_f_request : ℕ
nlm_f_request = 1

abbrev pub nlm_f_ack : ℕ
nlm_f_ack = 4

abbrev pub nlm_f_root : ℕ
nlm_f_root = 0x100

abbrev pub nlm_f_dump : ℕ
nlm_f_dump = 0x300

abbrev pub nlm_f_replace : ℕ
nlm_f_replace = 0x100

abbrev pub nlm_f_excl : ℕ
nlm_f_excl = 0x200

abbrev pub nlm_f_create : ℕ
nlm_f_create = 0x400

abbrev pub tca_act_tab : ℕ
tca_act_tab = 1

abbrev pub gatebench_act_prio : ℕ
gatebench_act_prio = 1

abbrev pub tca_root_flags : ℕ
tca_root_flags = 2

abbrev pub tca_root_count : ℕ
tca_root_count = 3

abbrev pub tca_root_max : ℕ
tca_root_max = 5

abbrev pub tca_act_kind : ℕ
tca_act_kind = 1

abbrev pub tca_act_options : ℕ
tca_act_options = 2

abbrev pub tca_act_index : ℕ
tca_act_index = 3

abbrev pub tca_act_stats : ℕ
tca_act_stats = 4

abbrev pub tca_act_max : ℕ
tca_act_max = 10

abbrev pub tca_fcnt : ℕ
tca_fcnt = 6

abbrev pub tca_act_flag_large_dump_on : ℕ
tca_act_flag_large_dump_on = 1

abbrev pub tca_gate_tm : ℕ
tca_gate_tm = 1

abbrev pub tca_gate_parms : ℕ
tca_gate_parms = 2

abbrev pub tca_gate_priority : ℕ
tca_gate_priority = 4

abbrev pub tca_gate_entry_list : ℕ
tca_gate_entry_list = 5

abbrev pub tca_gate_base_time : ℕ
tca_gate_base_time = 6

abbrev pub tca_gate_cycle_time : ℕ
tca_gate_cycle_time = 7

abbrev pub tca_gate_cycle_time_ext : ℕ
tca_gate_cycle_time_ext = 8

abbrev pub tca_gate_flags : ℕ
tca_gate_flags = 9

abbrev pub tca_gate_clockid : ℕ
tca_gate_clockid = 10

abbrev pub tca_gate_max : ℕ
tca_gate_max = 10

abbrev pub tca_gate_one_entry : ℕ
tca_gate_one_entry = 1

abbrev pub tca_gate_entry_index : ℕ
tca_gate_entry_index = 1

abbrev pub tca_gate_entry_gate : ℕ
tca_gate_entry_gate = 2

abbrev pub tca_gate_entry_interval : ℕ
tca_gate_entry_interval = 3

abbrev pub tca_gate_entry_ipv : ℕ
tca_gate_entry_ipv = 4

abbrev pub tca_gate_entry_max_octets : ℕ
tca_gate_entry_max_octets = 5

abbrev pub tca_gate_entry_max : ℕ
tca_gate_entry_max = 5

abbrev pub tca_stats_basic : ℕ
tca_stats_basic = 1

abbrev pub tca_stats_queue : ℕ
tca_stats_queue = 3

abbrev pub tca_stats_max : ℕ
tca_stats_max = 8

-- "gate"
abbrev pub gate_kind : Bytes
gate_kind = b'g' ∷ b'a' ∷ b't' ∷ b'e' ∷ []
