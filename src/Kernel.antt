-- ===== src/Kernel.antt =====
-- src/min_cpu_forth/services/kernel: the threaded-code kernel.
pub mod Routines
pub mod Program
pub mod Words
pub mod Boot
pub mod Agreement
pub mod Lookup
pub mod Reading
pub mod Builder
pub mod Installed
pub mod Calculator
