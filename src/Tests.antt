-- ===== src/Tests.antt =====
-- Runs on small inputs, and each theorem with hypotheses at an input where they hold.
mod Data
mod KernelTests
mod StackTests
mod EmulatorTests
mod AssemblerTests
mod DictionaryTests
mod ForthTests
mod WordTests
mod SafetyTests
mod ReadingTests
