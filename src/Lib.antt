-- ===== src/Lib.antt =====
-- gatebench: a benchmark and stress tool for the gate action of Linux traffic control. It builds
-- netlink messages for gate actions, sends them to the kernel, checks and times the answers, and
-- summarises the times.
--
-- The parts of the program and their models:
-- Config, Cli: the configuration and the command line (include/gatebench.h, src/cli.c). Cli/Number has
-- parse_u32, parse_u64 and parse_int, Cli/Options the loop of gb_cli_parse over the options, Cli the
-- checks behind it. getopt_long is what it reports, option by option; the conversions of the C library
-- are the record Libc of Base/Libc.
-- Stats: the samples and their statistics (src/stats.c). The array of a struct gb_stats is the list of
-- its cells in use, a read outside it is `none`. qsort is the record Qsort of Base/Sort and `double`
-- the record Double of Base/Double, each with the laws that the program relies on.
-- Mnl: libmnl as a record of operations and laws. A buffer has a draft: its header and the tree of
-- its attributes, with the nests that are still open. Mnl/Writes has the rules by which a piece of code
-- writes a list of attributes.
-- Gate: the messages and replies (src/gate_msg.c). Gate/Build has the builders, Gate/Trees the trees that
-- describe their messages, Gate/Sizes and Gate/Capacity the lengths, Gate/Parse the parsers. The other
-- modules relate them: Gate/Contents, Gate/Tables, Gate/Lookups, Gate/EntryTrip, Gate/OptionTrip and
-- Gate/RoundTrip.
-- Nl: exchanges with the kernel (src/nl.c). What poll and the socket do is a list of events; a call that
-- has used them up still waits, and its result is `none`. Nl/Receive has recv_response and recv_ack,
-- Nl/Dump and Nl/Exchange gb_nl_dump_action and the sends, Nl/Get gb_nl_get_action, Nl/Flush
-- gb_nl_send_recv_flush, whose parser walks through memory (Walk). Nl uses Gate to build
-- and to parse.
-- Selftest: the runner of src/selftest.c with its tallies and verdict, for any tables of cases.
-- Bench: the benchmark (src/bench.c). Bench/Act is a monad of codes over the socket, the sends and the
-- readings of the clock to come, Bench/Run has benchmark_single_run and Bench/Aggregate gb_bench_run with
-- gb_run_result_free and gb_summary_free of src/main.c. Bench/Served says what a kernel that answers is;
-- Bench/Taken, Bench/Measured, Bench/Completed, Bench/SingleRun and Bench/AllRuns follow the code beside it,
-- from the loops outwards. Bench/Kept and Bench/Release follow the array of the runs.
-- Race: what the workers of src/race.c share: random numbers and entries, error counts, the kernel's
-- messages in their slots (Race/Extack, Race/Slots, Race/FreeSlot, Race/Told), the breakdown that is
-- printed (Race/Top, Race/Exchange, Race/Greatest, Race/Breakdown, Race/TopFive), and the requests with
-- something wrong and those that move the base time (Race/Invalid, Race/Updates, Race/Contents), and the
-- CPUs of the workers (Race/Cpus). Race/Thread is the monad of a worker thread: its context, its socket,
-- the answer in its buffer, and the calls by which it keeps step with its partner. Race/Workers and
-- Race/Invaders have the eight threads, Race/Pairs the pairs of a phase, Race/Run
-- gb_race_run_with_summary. Race/Steps and Race/Quiet follow those calls through a thread, Race/Signals and
-- Race/Invaded thread by thread; Race/Shuffled, Race/Partners and Race/Phase follow the shuffles and the
-- seats, Race/Seconds the phases. Threads share only the kernel, which answers each of them as it likes, the
-- flag that stops them and the flags of their pairs, so a thread is a function of what it meets.
-- Main: src/main.c, composed of the parts: the mode, the phases of error, the report and the exit code.
-- Main/Json has the strings of the report, Main/Exit, Main/Whole, Main/Races
-- and Main/JsonTrip what holds of them.
-- Proof: the dump proof (src/proof.c). Proof/Prepare has gb_proof_run up to its capture, Proof/Pcap the
-- capture, Proof the dump and the label `out`. Proof/Views follows what the first steps leave alone,
-- Proof/Ended how a dump ends, Proof/Fair the run up to `out`, Proof/Honest the whole. What libpcap and
-- pthread_create do is the record PcapWorld.
-- Util: src/util.c, with the system calls as arguments.
-- Base has what they share; Tests has runs at concrete inputs, with a sample of each parameter.
--
-- Bounds: lengths of nests have 16 bits, which 2000 entries of 32 bytes respect; callers send at most
-- 64. Counters of 32 and 64 bits wrap around where the code lets them. The loops run over lists, over the
-- number of cells, rounds or runs, so none of them needs fuel; the exchange sort of src/race.c goes through
-- as many places as it has entries.
--
-- Not modelled: what the program prints but for the strings of the report, the cases of
-- src/selftests against a kernel, the waiting inside tst_fuzzy_sync.h
-- (the threads' calls of it are noted).
-- include/tst_fuzzy_sync.h is a copy of another project's header.
pub mod Base
pub mod Config
pub mod Cli
pub mod Tests
pub mod Stats
pub mod Mnl
pub mod Gate
pub mod Nl
pub mod Selftest
pub mod Bench
pub mod Race
pub mod Util
pub mod Main
pub mod Proof
