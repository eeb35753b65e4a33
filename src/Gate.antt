-- ===== src/Gate.antt =====
-- Control of the gate action: the entries and the dump, the messages to the kernel and the reading of
-- its replies (include/gatebench_gate.h, src/gate_msg.c).
pub mod Types
pub mod Numbers
pub mod Build
pub mod Trees
pub mod Sizes
pub mod Contents
pub mod Capacity
pub mod Parse
pub mod Tables
pub mod EntryTrip
pub mod Lookups
pub mod OptionTrip
pub mod RoundTrip
