-- ===== src/Domain.antt =====
-- src/min_cpu_forth/domain: the ISA's enums and the values that cross the hexagon's boundaries.
mod Isa
mod Dtos
pub mod Register
pub mod HeaderField
unfoldable pub use Isa.*
unfoldable pub use Dtos.*
