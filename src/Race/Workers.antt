-- ===== src/Race/Workers.antt =====
-- The worker threads of src/race.c: replace, dump, get, delete, traffic and its partner. Each is a
-- function of what it finds when it starts and of what happens outside; its memory is given back at
-- the end. race_pin_thread only places the thread.
use Prim.Native.Nat.{bit_or}
use gatebench.Base.{
  ℕ, ◌+◌, ◌-◌, ◌*◌, Bool, false, not, ◌&&◌, Option, none, some, List, [], ◌∷◌, ℤ, pos, neg, is_neg,
  ◌==ℤ◌, if◌then◌else◌, replicate, enoent, eexist,
}
use gatebench.Config.{GbConfig}
use gatebench.Gate.Types.{GateEntry, NlMsg}
use gatebench.Gate.Build.{
  build_gate_newaction, build_gate_delaction, build_gate_getaction, build_gate_getaction_ex,
}
use gatebench.Gate.Numbers.{nlm_f_create, nlm_f_excl, nlm_f_replace, nlm_f_dump}
use gatebench.Gate.Capacity.{gate_msg_capacity}
use gatebench.Gate.Parse.{gb_nl_gate_parse, empty_dump}
use gatebench.Nl.Open.{Opening}
use gatebench.Nl.Dump.{GbDumpStats, no_stats}
use gatebench.Nl.Exchange.{Message, Exchanged, gb_nl_msg_alloc, gb_nl_dump_action}
use gatebench.Bench.Act.{Machine, ok, Result, Act, kept, pure, ◌>>=◌, ◌>>◌}
use gatebench.Util.{Call, failed, success}
use gatebench.Race.{race_shape_init, race_min_pkt}
use gatebench.Race.Thread.{
  Thread, race_sync_start, race_sync_end, count_op, record_err, record_err_if, give_up, or_out,
  draw, fill, while_racing, at_out, send_recv, record_nl_error_if, to_build, built_msg, built_with,
  open_socket,
}

-- What the threads are given: the configuration, and the numbers made of it.
pub record RaceSetup : Type 0 where
  pub cfg : GbConfig
  pub index : ℕ
  pub live_index : ℕ
  pub max_entries : ℕ
  pub interval_max : ℕ

-- What a thread meets besides the kernel's answers: how its socket opens, what the flags hold at each
-- test of its loop, how the UDP socket opens, and how its sends end.
pub record Around : Type 0 where
  pub opening : Opening
  pub polls : List (Bool × Bool)
  pub udp : Call ℕ
  pub sends : List (Call ℕ)

-- RACE_MAX_PKT
abbrev pub race_max_pkt : ℕ
race_max_pkt = 1500

abbrev pub blank_entry : GateEntry
blank_entry = record { index = 0; gate_state = false; interval = 0; ipv = pos 0; maxoctets = pos 0 }

module _ (w : Machine) (s : RaceSetup) where
  open w use {mnl, malloc, realloc, socket_buffer, fresh}

  abbrev pub T : Type 0
  T = Thread mnl.Buf

  abbrev pub alloc : ℕ → Act T (Message mnl.Buf)
  alloc capacity = or_out (gb_nl_msg_alloc malloc fresh capacity)

  -- entries = calloc(ctx->max_entries, sizeof(*entries))
  abbrev pub callocated : Act T (List GateEntry)
  callocated =
      or_out
        (if malloc (s.max_entries * 20) then some (replicate s.max_entries blank_entry) else none)

  abbrev pub new_gate : Message mnl.Buf → ℕ × List GateEntry → ℕ → Act T (ℤ × Message mnl.Buf)
  new_gate msg (count, es) flags = built_with mnl msg (
      build_gate_newaction mnl (to_build mnl msg) s.index (some (race_shape_init s.cfg)) (some es)
        count flags 0 (neg 1))

  -- ret < 0 && ret != -EEXIST, and the same for other numbers
  abbrev pub fails_but : ℕ → ℤ → Bool
  fails_but e ret = is_neg ret && not (ret ==ℤ neg e)

  -- Either the builder's error is recorded, or the message is sent.
  abbrev pub replace_with : ℤ × Message mnl.Buf → Act T (Message mnl.Buf)
  replace_with (ret, req) = if is_neg ret then (do record_err ret; pure req) else (do
    r ← send_recv mnl req
    record_nl_error_if mnl (fails_but eexist r.0 && not (r.0 ==ℤ neg enoent)) r.0
    pure r.1)

  unfoldable pub replace_round :
      List GateEntry × Message mnl.Buf → Act T (List GateEntry × Message mnl.Buf)
  unfolding fill race_sync_start race_sync_end build_gate_newaction
  replace_round (entries, req) = do
    f ← fill entries s.max_entries s.interval_max
    b ← new_gate req f (bit_or nlm_f_create nlm_f_replace)
    race_sync_start
    req' ← replace_with b
    race_sync_end
    count_op
    pure (f.1, req')

  unfoldable pub race_replace_thread : Around → T → Option T
  unfolding open_socket while_racing replace_round gate_msg_capacity
  race_replace_thread a t = at_out (
      (do
        open_socket mnl malloc a.opening
        entries ← callocated
        req ← alloc (gate_msg_capacity socket_buffer s.max_entries 0)
        alloc socket_buffer
        while_racing replace_round a.polls (entries, req))
        t)

  -- ret = gb_nl_dump_action(sock, req, &stats, ctx->timeout_ms)
  abbrev pub dump_returned :
      Message mnl.Buf
      → Exchanged mnl.Buf (Option (ℤ × Option GbDumpStats))
      → T
      → Option (Result (ℤ × GbDumpStats × Message mnl.Buf) × T)
  dump_returned req x t = elim x.result [
    | none ↦ none
    | some (ret, stats) ↦ some (
      ok (ret, kept no_stats stats, record req { buf = kept req.buf x.request }),
      record t { scene = record t.scene { sock = kept t.scene.sock x.sock } },
    )
  ]

  unfoldable pub dump_action : Message mnl.Buf → Act T (ℤ × GbDumpStats × Message mnl.Buf)
  unfolding gb_nl_dump_action
  dump_action req t = elim t.scene.worlds [
    | [] ↦ none
    | x ∷ xs ↦
        dump_returned req
          (gb_nl_dump_action mnl malloc (some t.scene.sock) (some req) (some no_stats) x)
          (record t { scene = record t.scene { worlds = xs } })
  ]

  unfoldable pub dump_round : Message mnl.Buf → Act T (Message mnl.Buf)
  unfolding race_sync_start race_sync_end dump_action
  dump_round req = do
    race_sync_start
    d ← dump_action req
    (if is_neg d.0 then record_err d.0 else record_err_if d.1.saw_error d.1.error_code)
    race_sync_end
    count_op
    pure d.2

  -- The messages that are built_with once: goto out if that fails.
  abbrev pub must_build : Message mnl.Buf → ℤ × Option (NlMsg mnl.Buf) → Act T (Message mnl.Buf)
  must_build msg (ret, b) = if is_neg ret then give_up ret else pure (built_msg mnl msg b)

  unfoldable pub race_dump_thread : Around → T → Option T
  unfolding open_socket while_racing dump_round build_gate_getaction_ex
  race_dump_thread a t = at_out (
      (do
        open_socket mnl malloc a.opening
        req ← alloc 1024
        req' ← must_build req (build_gate_getaction_ex mnl (to_build mnl req) s.index nlm_f_dump)
        while_racing dump_round a.polls req')
        t)

  -- ret = gb_nl_gate_parse(resp->buf, &dump)
  unfoldable pub parse_resp : Act T ℤ
  unfolding gb_nl_gate_parse
  parse_resp t =
      some (ok (gb_nl_gate_parse mnl realloc (some t.resp.message) (some empty_dump)).0, t)

  -- The error is recorded unless the gate is not there; an answer is parsed.
  abbrev pub recorded : ℤ → Act T (Unit {0})
  recorded ret =
      if is_neg ret
      then record_nl_error_if mnl (not (ret ==ℤ neg enoent)) ret
      else parse_resp >>= λ parsed. record_err_if (is_neg parsed) parsed

  unfoldable pub get_round : Message mnl.Buf → Act T (Message mnl.Buf)
  unfolding race_sync_start race_sync_end parse_resp
  get_round req = do
    race_sync_start
    r ← send_recv mnl req
    recorded r.0
    race_sync_end
    count_op
    pure r.1

  unfoldable pub race_get_thread : Around → T → Option T
  unfolding open_socket while_racing get_round build_gate_getaction
  race_get_thread a t = at_out (
      (do
        open_socket mnl malloc a.opening
        req ← alloc 1024
        alloc socket_buffer
        req' ← must_build req (build_gate_getaction mnl (to_build mnl req) s.index)
        while_racing get_round a.polls req')
        t)

  -- What the loop of the delete worker holds: the entries and the two messages.
  pub record Deleting : Type 0 where
    pub entries : List GateEntry
    pub del : Message mnl.Buf
    pub create : Message mnl.Buf

  -- From the build of the new gate on; its error skips the rest of the round.
  abbrev pub create_again : List GateEntry → Message mnl.Buf → ℤ × Message mnl.Buf → Act T Deleting
  create_again es del (ret, create) =
      if is_neg ret
      then (do record_err ret; pure (record { entries = es; del = del; create = create }))
      else (do
        c ← send_recv mnl create
        record_nl_error_if mnl (fails_but eexist c.0) c.0
        count_op
        pure (record { entries = es; del = del; create = c.1 }))

  unfoldable pub delete_round : Deleting → Act T Deleting
  unfolding race_sync_start race_sync_end fill build_gate_newaction
  delete_round d = do
    race_sync_start
    r ← send_recv mnl d.del
    record_nl_error_if mnl (fails_but enoent r.0) r.0
    race_sync_end
    f ← fill d.entries s.max_entries s.interval_max
    b ← new_gate d.create f (bit_or nlm_f_create nlm_f_excl)
    create_again f.1 r.1 b

  unfoldable pub race_delete_thread : Around → T → Option T
  unfolding open_socket while_racing delete_round gate_msg_capacity build_gate_delaction
  race_delete_thread a t = at_out (
      (do
        open_socket mnl malloc a.opening
        entries ← callocated
        del ← alloc 1024
        create ← alloc (gate_msg_capacity socket_buffer s.max_entries 0)
        alloc socket_buffer
        del' ← must_build del (build_gate_delaction mnl (to_build mnl del) s.index)
        while_racing delete_round a.polls
            (record { entries = entries; del = del'; create = create }))
        t)

  -- socket(AF_INET, SOCK_DGRAM, 0)
  abbrev pub udp_socket : Call ℕ → Act T (Unit {0})
  udp_socket (failed e) = give_up (neg e)
  udp_socket (success fd) = pure tt

  -- ret = sendto(...): an error is recorded, anything else counts.
  abbrev pub sent_to : List (Call ℕ) → Act T (List (Call ℕ))
  sent_to [] t = none
  sent_to (failed e ∷ sends) t = (record_err (neg e) >>= λ _. pure sends) t
  sent_to (success n ∷ sends) t = (count_op >>= λ _. pure sends) t

  unfoldable pub traffic_round : List (Call ℕ) → Act T (List (Call ℕ))
  unfolding race_sync_start race_sync_end draw
  traffic_round sends = do
    draw (race_max_pkt - race_min_pkt + 1)
    race_sync_start
    rest ← sent_to sends
    race_sync_end
    pure rest

  unfoldable pub race_traffic_thread : Around → T → Option T
  unfolding while_racing traffic_round
  race_traffic_thread a t =
      at_out ((do udp_socket a.udp; while_racing traffic_round a.polls a.sends) t)

  -- The additions to `spin` are not read.
  unfoldable pub partner_round : Unit {0} → Act T (Unit {0})
  unfolding race_sync_start race_sync_end
  partner_round u = do race_sync_start; race_sync_end; count_op; pure u

  unfoldable pub race_sync_partner_thread : Around → T → Option T
  unfolding while_racing partner_round
  race_sync_partner_thread a t = at_out (while_racing partner_round a.polls tt t)
