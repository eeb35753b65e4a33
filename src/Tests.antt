-- ===== src/Tests.antt =====
-- Runs at concrete inputs, and the theorems at inputs that meet their hypotheses.
mod SampleLibc
mod SampleBytes
mod SampleDraft
mod SampleMnl
mod SampleSort
mod SampleDouble
mod CliRuns
mod StatsRuns
mod GateRuns
mod NlRuns
mod BenchRuns
mod SampleRun
mod MainRuns
mod RaceRuns
mod ThreadRuns
mod SelftestRuns
mod UtilRuns
mod ProofRuns
mod FlushRuns
