-- ===== src/Assembler.antt =====
-- src/min_cpu_forth/services/assembler: parse, resolve, emit.
pub mod Text
pub mod Specs
pub mod Parser
pub mod Resolver
pub mod Emitter
pub mod Addresses
pub mod LabelTable
pub mod Outcome
pub mod Slots
pub mod Complete
use min_cpu_forth.Prelude.{String}
use min_cpu_forth.Errors.{Result, ok, ◌>>=◌}
use min_cpu_forth.Domain.{Assembly}
use Parser.{parse}
use Resolver.{resolve}
use Emitter.{emit}

-- `TextAssembler.assemble`
unfoldable pub assemble : String → Result Assembly
unfolding parse resolve emit
assemble source = parse source >>= λ lines. resolve lines >>= λ resolved.
    emit resolved >>= λ program. ok (record { program = program; labels = resolved.labels })
