-- ===== src/Forth.antt =====
-- src/min_cpu_forth/services/forth.py: `ForthService`.
pub mod StackWords
pub mod Service
pub mod Depth
pub mod Colon
pub mod Refinement
pub mod Effects
