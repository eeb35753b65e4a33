-- ===== src/Tests/SampleRun.antt =====
-- One short run of the benchmark, and a kernel that answers it.
use gatebench.Base.{ℕ, ◌≡◌, refl, true, some, List, [], ◌∷◌, pos, neg}
use gatebench.Gate.Types.{GateEntry}
use gatebench.Config.{GbConfig, gb_config_init}
use gatebench.Mnl.Writing.{Draft, header_only}
use gatebench.Nl.{Arrived, datagram, sent}
use gatebench.Nl.Exchange.{World}
use gatebench.Nl.Receive.{recv_response}
use gatebench.Nl.First.{recv_response-first}
use gatebench.Util.{Call, success, Timespec}
use gatebench.Bench.Act.{Machine}
use gatebench.Bench.SingleRun.{gate_length}
use gatebench.Tests.SampleMnl.{sample_mnl}
use gatebench.Tests.SampleDouble.{sample_double}
use gatebench.Tests.SampleSort.{sample_qsort}

abbrev pub blank : GateEntry
blank = record { index = 0; gate_state = true; interval = 0; ipv = neg 1; maxoctets = neg 1 }

-- Memory for everything.
abbrev pub machine : Machine
machine = record {
  mnl = sample_mnl;
  double = sample_double;
  sort = sample_qsort;
  sort_double = sample_qsort;
  malloc = λ n. true;
  realloc = λ n. true;
  socket_buffer = 8192;
  fresh = header_only;
  blank = blank;
}

-- One run of one index, with one entry.
abbrev pub short : GbConfig
short = record gb_config_init {
  iters = 1;
  warmup = 0;
  runs = 1;
  entries = 1;
  interval_ns = 1000000;
}

abbrev pub ack : ℕ → Arrived Draft
ack seq = record {
  nlmsg_len = 36;
  nlmsg_type = 2;
  nlmsg_seq = seq;
  error = pos 0;
  message = header_only;
}

abbrev pub acked : ℕ → ℕ → World Draft
acked seq len = record { sending = sent len; events = datagram (ack seq ∷ []) ∷ [] }

pub acked_lem :
    (seq : ℕ) → recv_response seq (datagram (ack seq ∷ []) ∷ []) ≡ some (pos 0, ack seq ∷ [])
acked_lem seq = recv_response-first seq [] [] [] (ack seq) [] tt tt refl

abbrev pub worlds : List (World Draft)
worlds =
    acked 1 48
    ∷ acked 2 (gate_length machine short 1536)
    ∷ acked 3 (gate_length machine short 1280)
    ∷ acked 4 48
    ∷ []

abbrev pub clocks : List (Call Timespec)
clocks =
    success (0, 1)
    ∷ success (0, 2)
    ∷ success (0, 5)
    ∷ success (0, 6)
    ∷ success (0, 8)
    ∷ success (0, 9)
    ∷ []
