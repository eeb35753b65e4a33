-- ===== src/Race/Signals.antt =====
-- The worker threads replace, dump, get, delete, traffic and its partner (src/race.c) keep step with
-- their partners.
use Prim.Native.Nat.{bit_or}
use gatebench.Gate.Numbers.{nlm_f_create, nlm_f_replace, nlm_f_excl, nlm_f_dump}
use gatebench.Gate.Build.{build_gate_delaction, build_gate_getaction, build_gate_getaction_ex}
use gatebench.Base.{
  ℕ, ◌+◌, ◌-◌, neg, refl, Bool, Option, none, some, List, [], ◌∷◌, ℤ, is_neg, Option-cases, inl,
  inr,
}
use gatebench.Gate.Types.{GateEntry, NlMsg}
use gatebench.Nl.Exchange.{Message, World, Exchanged, gb_nl_dump_action}
use gatebench.Nl.Dump.{GbDumpStats, no_stats}
use gatebench.Bench.Act.{Machine, pure}
use gatebench.Util.{Call, failed, success}
use gatebench.Bench.Act.{◌>>◌}
use gatebench.Race.Thread.{count_op, send_recv, to_build, built_msg}
use gatebench.Race.Workers.{
  race_max_pkt, RaceSetup, Around, T, alloc, new_gate, replace_with, replace_round,
  race_replace_thread, dump_returned, dump_action, dump_round, must_build, race_dump_thread,
  parse_resp, recorded, get_round, race_get_thread, Deleting, create_again, delete_round,
  race_delete_thread, udp_socket, sent_to, traffic_round, race_traffic_thread, partner_round,
  race_sync_partner_thread,
}
use gatebench.Race.{race_min_pkt}
use gatebench.Race.Steps.{
  HasSeat, AddsAt, IsRound, quiet_then, quietly, pure-Adds, if-Adds, ended_then, started_then,
  Signals, set_up, while_racing-Comes, thread-Signals,
}
use gatebench.Race.Quiet.{
  Quiet, count_op-Quiet, record_err-Quiet, record_err_if-Quiet, draw-Quiet, fill-Quiet, Settles,
  Quiet-Settles, give_up-Settles, or_out-Settles, if-Settles, exchanged-Quiet,
  record_nl_error_if-Quiet, built_with-Quiet, open_socket-Settles,
}

module _ (w : Machine) (s : RaceSetup) (k : ℕ) (is_a : Bool) where
  open w use {mnl, malloc}

  -- A round counts and hands on what its loop holds.
  pub counted : {A : Type 0} (x : A) → Quiet k is_a (count_op >> pure {S = T w s} x)
  counted x = quietly k is_a (count_op-Quiet k is_a) (λ u. pure-Adds k is_a x)

  pub send_recv-Quiet : (msg : Message mnl.Buf) → Quiet k is_a (send_recv mnl msg)
  send_recv-Quiet msg = exchanged-Quiet mnl k is_a msg _

  new_gate-Quiet :
      (msg : Message mnl.Buf) (f : ℕ × List GateEntry) (flags : ℕ)
      → Quiet k is_a (new_gate w s msg f flags)
  new_gate-Quiet msg (count, es) flags = built_with-Quiet mnl k is_a msg _

  replace_with-Quiet : (r : ℤ × Message mnl.Buf) → Quiet k is_a (replace_with w s r)
  replace_with-Quiet (ret, req) =
      if-Adds k is_a (is_neg ret) []
        (quietly k is_a (record_err-Quiet k is_a ret) (λ u. pure-Adds k is_a req))
        (quietly k is_a (send_recv-Quiet req)
          λ r. quietly k is_a (record_nl_error_if-Quiet mnl k is_a _ _) (λ u. pure-Adds k is_a _))

  replace_round-IsRound :
      (x : List GateEntry × Message mnl.Buf) → IsRound k is_a (replace_round w s x)
  unfolding replace_round
  replace_round-IsRound (es, req) =
      quiet_then k is_a _ (fill-Quiet k is_a es s.max_entries s.interval_max) λ f.
        quiet_then k is_a _ (new_gate-Quiet req f (bit_or nlm_f_create nlm_f_replace)) λ b.
          started_then k is_a
            (quiet_then k is_a _ (replace_with-Quiet b) (λ r. ended_then k is_a (counted (f.1, r))))

  dump_returned-AddsAt :
      (req : Message mnl.Buf) (x : Exchanged mnl.Buf (Option (ℤ × Option GbDumpStats))) (t : T w s)
      → HasSeat k is_a t
      → AddsAt k is_a [] t (dump_returned w s req x t)
  dump_returned-AddsAt req x t h = elim (Option-cases x.result) [
    | inl e ↦ rw e tt
    | inr (r, e) ↦ rw e (refl, h)
  ]

  dump_action-Quiet : (req : Message mnl.Buf) → Quiet k is_a (dump_action w s req)
  unfolding dump_action
  dump_action-Quiet req = record { adds = λ t h. each t.scene.worlds t h }
    where
      each :
          (ws : List (World mnl.Buf)) (t : T w s)
          → HasSeat k is_a t
          → AddsAt k is_a [] t (elim ws [
            | [] ↦ none
            | x ∷ xs ↦
                dump_returned w s req
                  (gb_nl_dump_action mnl malloc (some t.scene.sock) (some req) (some no_stats) x)
                  (record t { scene = record t.scene { worlds = xs } })
          ])
      each [] t h = tt
      each (x ∷ xs) t h =
          dump_returned-AddsAt req
            (gb_nl_dump_action mnl malloc (some t.scene.sock) (some req) (some no_stats) x)
            (record t { scene = record t.scene { worlds = xs } }) h

  dump_round-IsRound : (req : Message mnl.Buf) → IsRound k is_a (dump_round w s req)
  unfolding dump_round
  dump_round-IsRound req = started_then k is_a (
      quiet_then k is_a _ (dump_action-Quiet req) λ d.
        quiet_then k is_a _
          (if-Adds k is_a (is_neg d.0) [] (record_err-Quiet k is_a _)
            (record_err_if-Quiet k is_a _ _))
          (λ u. ended_then k is_a (counted d.2)))

  parse_resp-Quiet : Quiet k is_a (parse_resp w s)
  unfolding parse_resp
  parse_resp-Quiet = record { adds = λ t h. (refl, h) }

  recorded-Quiet : (ret : ℤ) → Quiet k is_a (recorded w s ret)
  recorded-Quiet ret =
      if-Adds k is_a (is_neg ret) [] (record_nl_error_if-Quiet mnl k is_a _ ret)
        (quietly k is_a parse_resp-Quiet (λ p. record_err_if-Quiet k is_a (is_neg p) p))

  get_round-IsRound : (req : Message mnl.Buf) → IsRound k is_a (get_round w s req)
  unfolding get_round
  get_round-IsRound req = started_then k is_a (
      quiet_then k is_a _ (send_recv-Quiet req)
        λ r. quiet_then k is_a _ (recorded-Quiet r.0) (λ u. ended_then k is_a (counted r.1)))

  create_again-Quiet :
      (es : List GateEntry) (del : Message mnl.Buf) (b : ℤ × Message mnl.Buf)
      → Quiet k is_a (create_again w s es del b)
  create_again-Quiet es del (ret, create) =
      if-Adds k is_a (is_neg ret) []
        (quietly k is_a (record_err-Quiet k is_a ret) (λ u. pure-Adds k is_a _))
        (quietly k is_a (send_recv-Quiet create)
          λ c. quietly k is_a (record_nl_error_if-Quiet mnl k is_a _ c.0) (λ u. counted _))

  -- What follows a race in the round of the delete worker.
  delete_round-IsRound : (d : Deleting w s) → IsRound k is_a (delete_round w s d)
  unfolding delete_round
  delete_round-IsRound d = started_then k is_a (
      quiet_then k is_a _ (send_recv-Quiet d.del) λ r.
        quiet_then k is_a _ (record_nl_error_if-Quiet mnl k is_a _ r.0) λ u. ended_then k is_a (
          quietly k is_a (fill-Quiet k is_a d.entries s.max_entries s.interval_max) λ f.
            quietly k is_a (new_gate-Quiet d.create f (bit_or nlm_f_create nlm_f_excl))
              λ b. create_again-Quiet f.1 r.1 b))

  sent_to-Quiet : (sends : List (Call ℕ)) → Quiet k is_a (sent_to w s sends)
  sent_to-Quiet [] = record { adds = λ t h. tt }
  sent_to-Quiet (failed e ∷ sends) =
      quietly k is_a (record_err-Quiet k is_a (neg e)) (λ u. pure-Adds k is_a sends)
  sent_to-Quiet (success n ∷ sends) = counted sends

  traffic_round-IsRound : (sends : List (Call ℕ)) → IsRound k is_a (traffic_round w s sends)
  unfolding traffic_round
  traffic_round-IsRound sends =
      quiet_then k is_a _ (draw-Quiet k is_a (race_max_pkt - race_min_pkt + 1)) λ len.
        started_then k is_a (
          quiet_then k is_a _ (sent_to-Quiet sends)
            (λ rest. ended_then k is_a (pure-Adds k is_a rest)))

  partner_round-IsRound : (u : Unit {0}) → IsRound k is_a (partner_round w s u)
  unfolding partner_round
  partner_round-IsRound u = started_then k is_a (ended_then k is_a (counted u))

  pub alloc-Settles : (capacity : ℕ) → Settles k is_a (alloc w s capacity)
  alloc-Settles capacity = or_out-Settles k is_a _

  must_build-Settles :
      (msg : Message mnl.Buf) (b : ℤ × Option (NlMsg mnl.Buf))
      → Settles k is_a (must_build w s msg b)
  must_build-Settles msg (ret, b) =
      if-Settles k is_a (is_neg ret) (give_up-Settles k is_a ret)
        (Quiet-Settles k is_a (pure-Adds k is_a (built_msg mnl msg b)))

  udp_socket-Settles : (c : Call ℕ) → Settles k is_a (udp_socket w s c)
  udp_socket-Settles (failed e) = give_up-Settles k is_a (neg e)
  udp_socket-Settles (success fd) = Quiet-Settles k is_a (pure-Adds k is_a tt)

  module _ (a : Around) (t : T w s) (h : HasSeat k is_a t) where
    pub race_replace_thread-Signals : Signals k is_a t.log (race_replace_thread w s a t)
    unfolding race_replace_thread
    race_replace_thread-Signals =
        thread-Signals k is_a t
          (set_up k is_a (open_socket-Settles mnl k is_a malloc a.opening) λ u.
            set_up k is_a (or_out-Settles k is_a _) λ es. set_up k is_a (alloc-Settles _) λ req.
              set_up k is_a (alloc-Settles _)
                λ resp. while_racing-Comes k is_a a.polls (es, req) replace_round-IsRound)
          h

    pub race_dump_thread-Signals : Signals k is_a t.log (race_dump_thread w s a t)
    unfolding race_dump_thread
    race_dump_thread-Signals =
        thread-Signals k is_a t
          (set_up k is_a (open_socket-Settles mnl k is_a malloc a.opening) λ u.
            set_up k is_a (alloc-Settles 1024) λ req.
              set_up k is_a
                (must_build-Settles req
                  (build_gate_getaction_ex mnl (to_build mnl req) s.index nlm_f_dump))
                λ req'. while_racing-Comes k is_a a.polls req' dump_round-IsRound)
          h

    pub race_get_thread-Signals : Signals k is_a t.log (race_get_thread w s a t)
    unfolding race_get_thread
    race_get_thread-Signals =
        thread-Signals k is_a t
          (set_up k is_a (open_socket-Settles mnl k is_a malloc a.opening) λ u.
            set_up k is_a (alloc-Settles 1024) λ req. set_up k is_a (alloc-Settles _) λ resp.
              set_up k is_a
                (must_build-Settles req (build_gate_getaction mnl (to_build mnl req) s.index))
                λ req'. while_racing-Comes k is_a a.polls req' get_round-IsRound)
          h

    pub race_delete_thread-Signals : Signals k is_a t.log (race_delete_thread w s a t)
    unfolding race_delete_thread
    race_delete_thread-Signals =
        thread-Signals k is_a t
          (set_up k is_a (open_socket-Settles mnl k is_a malloc a.opening) λ u.
            set_up k is_a (or_out-Settles k is_a _) λ es. set_up k is_a (alloc-Settles 1024) λ del.
              set_up k is_a (alloc-Settles _) λ create. set_up k is_a (alloc-Settles _) λ resp.
                set_up k is_a
                  (must_build-Settles del (build_gate_delaction mnl (to_build mnl del) s.index))
                  λ del'.
                    while_racing-Comes k is_a a.polls
                      (record { entries = es; del = del'; create = create }) delete_round-IsRound)
          h

    pub race_traffic_thread-Signals : Signals k is_a t.log (race_traffic_thread w s a t)
    unfolding race_traffic_thread
    race_traffic_thread-Signals =
        thread-Signals k is_a t
          (set_up k is_a (udp_socket-Settles a.udp)
            λ u. while_racing-Comes k is_a a.polls a.sends traffic_round-IsRound)
          h

    pub race_sync_partner_thread-Signals : Signals k is_a t.log (race_sync_partner_thread w s a t)
    unfolding race_sync_partner_thread
    race_sync_partner_thread-Signals =
        thread-Signals k is_a t (while_racing-Comes k is_a a.polls tt partner_round-IsRound) h
