-- ===== src/Tests/ProofRuns.antt =====
-- src/proof.c
use gatebench.Base.{ℕ, true, some, List, [], ◌∷◌, neg}
use gatebench.Config.{GbConfig}
use gatebench.Mnl.Writing.{Draft}
use gatebench.Nl.{Arrived, datagram, sent}
use gatebench.Nl.Open.{bound}
use gatebench.Nl.Exchange.{World}
use gatebench.Util.{success}
use gatebench.Bench.SingleRun.{gate_length}
use gatebench.Proof.{gb_proof_run}
use gatebench.Proof.Pcap.{PcapWorld}
use gatebench.Proof.Honest.{IsHonestProof, gb_proof_run-IsHonest}
use gatebench.Tests.SampleRun.{machine, short, ack, acked}

-- A capture is asked for, and works.
abbrev recorded : GbConfig
recorded = record short { pcap_path = some (b'p' ∷ []); nlmon_iface = some (b'n' ∷ []) }

abbrev pcap : PcapWorld
pcap = record { have_pcap = true; open_live = true; dump_open = true; thread = success tt }

abbrev refused : ℕ → Arrived Draft
refused seq = record (ack seq) { error = neg 2 }

abbrev answer : ℕ → ℕ → Arrived Draft
answer type seq = record (ack seq) { nlmsg_type = type }

-- There is no such gate, it is made, dumped and deleted.
abbrev exchanges : List (World Draft)
exchanges =
    record { sending = sent 48; events = datagram (refused 1 ∷ []) ∷ [] }
    ∷ acked 2 (gate_length machine short 1536)
    ∷ record { sending = sent 48; events = datagram (answer 50 3 ∷ answer 3 3 ∷ []) ∷ [] }
    ∷ acked 4 48
    ∷ []

gb_proof_run-IsHonest_example :
    IsHonestProof pcap recorded (gb_proof_run machine pcap (bound 7) exchanges recorded)
gb_proof_run-IsHonest_example =
    gb_proof_run-IsHonest pcap recorded machine tt (bound 7) exchanges tt
      ((tt, (tt, tt)), ((tt, (tt, tt)), ((tt, (tt, tt)), ((tt, (tt, tt)), tt))))
