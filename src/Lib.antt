-- ===== src/Lib.antt =====
-- A verification library for min-cpu-forth: a 17-instruction CPU emulator, its text assembler,
-- and a Forth kernel of indirect threaded code that the assembler assembles and the CPU runs.
--
-- The parts, with the file that models each (paths from the repository's root):
-- - Errors, Layout, Domain: src/min_cpu_forth/errors.py, layout.py and domain/. An exception is a
--   constructor of `Error`; its message is dropped, but for the two of `StackError`. Of the classes'
--   hierarchy `is_emulator_error` keeps that `InputExhaustedError` is an `EmulatorError`.
-- - Memory, Registers, CharacterIo, Stack: src/min_cpu_forth/adapters/. The memory is a size and a
--   function of the cell's position; `position` is Python's list indexing, which lets a negative
--   address count from the end. A stack is its base, floor and pointer over the memory it shares.
-- - Dictionary: src/min_cpu_forth/adapters/counted_string.py, system_variables.py and dictionary.py,
--   as functions of the memory that they share. A string is the list of its code points. `find`
--   counts the headers that it may look at, since links that form a cycle never end; the answer
--   `none` is where the count has run out. Dictionary/Chain has the chain of headers as a list, and
--   Dictionary/Invariant when a memory is a dictionary of such a list.
-- - Emulator: src/min_cpu_forth/services/emulator.py. `Machine` is the service with the adapters
--   that it holds, `exec_*` the handlers, `step` and `run` the methods. A method is a function from
--   the machine to a result and the machine (Effects), so what was written before an exception
--   stays written. Emulator/Spec is the abstract machine: stacks are lists with a count of free
--   cells, memory is the dictionary block alone, and an instruction that would raise, or would
--   read or write outside that block, has no step. Emulator/Safety and Emulator/Operands are about
--   every program instead, with exceptions.
-- - Assembler: src/min_cpu_forth/services/assembler/, the parser, the resolver and the emitter.
--   Assembler/Text has what they take from Python's strings, regular expressions and `int`.
-- - Kernel/Routines: the source texts of src/min_cpu_forth/services/kernel/routines.py, one constant
--   for each primitive. Kernel/Program assembles them with the modelled assembler; the proofs
--   fetch from its outcome as a listing of 379 instructions. Kernel/Words
--   has what each routine does to a `World` (all that a word can see), Kernel/Words/Threads
--   threaded code as a step relation. Kernel/Words/Reaching leaves the number of steps out, for the
--   routines that loop: Scan and Tokens are `WORD`, Digits, Answers and Numbers `NUMBER`, and Names,
--   Headers, Found and Finding `FIND`; Kernel/Lookup is about `FIND` and the
--   dictionary's `find`. Kernel/Reading has the threads that use them together.
-- - Kernel/Builder and Kernel/Boot: `build`, `boot_thread` and `boot` of
--   src/min_cpu_forth/services/kernel/builder.py, over the memory that the dictionary shares with
--   the emulator. Kernel/Installed is the memory after the 39 code words have been installed, and
--   Kernel/Calculator what a boot thread of numbers and words computes.
-- - Containers: what src/min_cpu_forth/containers.py wires, with the initial state of each part.
-- - Forth: src/min_cpu_forth/services/forth.py. Forth/StackWords has the words of the data stack,
--   over any `StackPort`, and Kernel/Agreement compares them with the kernel's routines;
--   Forth/Service has the service's state, its dictionary and its colon definitions. A call of a
--   colon definition counts how many more may be entered inside it before Python's limit on
--   recursion; the limit itself is a parameter. Forth/Effects has the stack effects of the words on
--   lists, Forth/Colon and Forth/Depth the order and the errors of colon definitions.
-- - Prelude: names passed on, tests into Bool, lists, and Python's integers over native numbers.
-- - Tests: runs on small inputs, and the theorems with hypotheses at such inputs.
--
-- Integers are unbounded, as Python's are. `run` is recursion on the number of steps left, which
-- is the source's own guard; a theorem that gives a run a number of steps says that this many are
-- enough, with any number more.
--
-- Assumed: source text is ASCII, where the classes of characters are those of Assembler/Text.
-- Not modelled: the third-party library of providers under containers.py, the file reader
-- adapters/source.py, which is pure input, and the prototypes in docs/, which nothing imports. A
-- `RecursionError` that Python raises inside a primitive of `ForthService`, for want of frames for the
-- primitive's own calls, is left out, as is the relation of the exceptions' classes but for the one
-- named above. `chr` and `int` raise as in Python 3.14, which the project asks for.
pub mod Prelude
pub mod Errors
pub mod Effects
pub mod Domain
pub mod Layout
pub mod Memory
pub mod Registers
pub mod CharacterIo
pub mod Stack
pub mod Dictionary
pub mod Emulator
pub mod Forth
pub mod Assembler
pub mod Containers
pub mod Kernel
pub mod Tests
