-- ===== src/Dictionary.antt =====
-- src/min_cpu_forth/adapters: counted strings, system variables and the dictionary, all in the
-- shared memory.
pub mod CountedString
pub mod Codec
pub mod Variables
pub mod Words
pub mod Append
pub mod Chain
pub mod Search
pub mod Invariant
pub mod Lookup
