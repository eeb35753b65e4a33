-- ===== src/Bench/Served.antt =====
-- The benchmark beside a kernel that answers each request, and clocks that can be read.
use gatebench.Base.{
  ℕ, zero, suc, ◌+◌, ◌*◌, ◌%◌, ◌≤◌, ◌≡◌, refl, Bool, true, false, some, List, [], ◌∷◌, ℤ, ltb, ◌==◌,
  arith, u64_mod, u32_mod,
}
use gatebench.Mnl.{Mnl}
use gatebench.Nl.{NlSock, Arrived, sent}
use gatebench.Nl.Receive.{recv_response}
use gatebench.Nl.Exchange.{Message, World, gb_nl_send_recv}
use gatebench.Util.{Call, failed, success, Timespec, gb_util_ns_now}
use gatebench.Bench.Act.{Scene, ok, send, now}

abbrev pub next : NlSock → NlSock
next s = record s { seq = (s.seq + 1) % u32_mod }

-- A request: its length, and which codes the benchmark does not go on with.
abbrev pub Request : Type 0
Request = ℕ × (ℤ → Bool)

-- The requests are sent whole and answered, one after the other, each with its sequence number and
-- a code that the benchmark goes on with.
abbrev pub Serves : {Buf : Type 0} → NlSock → List Request → List (World Buf) → Type 0
Serves s [] ws = Unit
Serves s (r ∷ rs) [] = ⊥
Serves {Buf} s (r ∷ rs) (w ∷ ws) =
    (w.sending ≡ sent r.0)
    × ((ret : ℤ) × (hs : List (Arrived Buf)) × (recv_response s.seq w.events ≡ some (ret, hs))
        × (r.1 ret ≡ false))
    × Serves (next s) rs ws

-- The next n readings of the clock succeed.
abbrev pub Ticks : ℕ → List (Call Timespec) → Type 0
Ticks zero cs = Unit
Ticks (suc n) [] = ⊥
Ticks (suc n) (failed e ∷ cs) = ⊥
Ticks (suc n) (success t ∷ cs) = Ticks n cs

module _ (m : Mnl) where
  open m use {Buf}

  pub record Ready (n : ℕ) (rs : List Request) (sc : Scene Buf) : Type 0 where
    pub serves : Serves sc.sock rs sc.worlds
    pub ticks : Ticks n sc.clocks

  pub record Sent (msg : Message Buf) (r : ℤ → Bool) (n : ℕ) (rs : List Request) (sc : Scene Buf)
      : Type 0 where
    pub ret : ℤ
    pub buf : Buf
    pub after : Scene Buf
    pub runs : send m msg sc ≡ some (ok (ret, record msg { buf = buf }), after)
    pub goes_on : r ret ≡ false
    pub ready : Ready n rs after

  pub send-Sent :
      (msg : Message Buf) (len : ℕ) (bad : ℤ → Bool) (n : ℕ) (rs : List Request) (sc : Scene Buf)
      → msg.len ≤ msg.cap
      → msg.len ≡ len
      → Ready n ((len, bad) ∷ rs) sc
      → Sent msg bad n rs sc
  unfolding send gb_nl_send_recv
  send-Sent msg len bad n rs sc fits same r = go sc.sock sc.worlds sc.clocks r.serves r.ticks
    where
      go :
          (s : NlSock) (ws : List (World Buf)) (cs : List (Call Timespec))
          → Serves s ((len, bad) ∷ rs) ws
          → Ticks n cs
          → Sent msg bad n rs (record { sock = s; worlds = ws; clocks = cs })
      go s [] cs sv t = absurd sv
      go s (w ∷ ws) cs (sending, (ret, hs, received, fine), rest) t = record {
        ret = ret;
        buf = m.set_nlmsg_seq msg.buf s.seq;
        after = record { sock = next s; worlds = ws; clocks = cs };
        runs =
            let within : ltb msg.cap msg.len ≡ false = ground arith in
            let whole : (len == msg.len) ≡ true = ground arith in
            rw (within, sending, whole, received) refl;
        goes_on = fine;
        ready = record { serves = rest; ticks = t };
      }

  pub record Read (n : ℕ) (rs : List Request) (sc : Scene Buf) : Type 0 where
    pub time : ℕ
    pub after : Scene Buf
    pub runs : now m sc ≡ some (ok time, after)
    pub ready : Ready n rs after

  pub now-Read : (n : ℕ) (rs : List Request) (sc : Scene Buf) → Ready (suc n) rs sc → Read n rs sc
  unfolding now gb_util_ns_now
  now-Read n rs sc r = go sc.sock sc.worlds sc.clocks r.serves r.ticks
    where
      go :
          (s : NlSock) (ws : List (World Buf)) (cs : List (Call Timespec))
          → Serves s rs ws
          → Ticks (suc n) cs
          → Read n rs (record { sock = s; worlds = ws; clocks = cs })
      go s ws [] v t = absurd t
      go s ws (failed e ∷ cs) v t = absurd t
      go s ws (success (sec, nsec) ∷ cs) v t = record {
        time = (sec * 1000000000 + nsec) % u64_mod;
        after = record { sock = s; worlds = ws; clocks = cs };
        runs = refl;
        ready = record { serves = v; ticks = t };
      }
