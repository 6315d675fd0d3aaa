-- ===== src/Forth/Service.antt =====
-- src/min_cpu_forth/services/forth.py: the state of `ForthService`, its words, and colon definitions.
use min_cpu_forth.Prelude.{
  ℕ, zero, suc, String, Bool, true, false, Option, none, some, List, [], ◌∷◌,
}
use min_cpu_forth.Prelude.Int.{ℤ}
use min_cpu_forth.Errors.{Result, ok, err, key_error, type_error, unknown_word, recursion_error}
use min_cpu_forth.Effects.{Action, raise, pure, ◌>>=◌, ◌>>◌}
use min_cpu_forth.Domain.Register
use min_cpu_forth.Memory
use min_cpu_forth.Memory.{Memory}
use min_cpu_forth.Registers
use min_cpu_forth.Registers.{RegisterFile}
use min_cpu_forth.Stack
use min_cpu_forth.Stack.{Stack, Region}
use min_cpu_forth.Stack.Port.{StackPort}
use min_cpu_forth.Assembler.Specs.{lookup}
use min_cpu_forth.Forth.StackWords
use min_cpu_forth.Forth.StackWords.{StackWord, stack_word}

-- The entries that `build_minimal_dictionary` installs.
pub data Builtin : Type 0 where
  on_stack : StackWord → Builtin
  fetch store to_r from_r r_fetch : Builtin
  lit docol exit bye no_op : Builtin

-- What the dictionary maps a name to: a primitive, or the closure over a colon definition's name.
pub data Word : Type 0 where
  builtin : Builtin → Word
  colon : String → Word

-- The newest entry of a name stands first.
pub record Forth : Type 0 where
  pub memory : Memory
  pub data_stack : Stack
  pub return_stack : Stack
  pub registers : RegisterFile
  pub halted : Bool
  pub dictionary : List (String × Word)
  pub colon_defs : List (String × List String)

abbrev pub on_data : {A : Type 0} → Action Region A → Action Forth A
on_data m s =
    let (result, r) = m (record { stack = s.data_stack; memory = s.memory }) in
    (result, record s { data_stack = r.stack; memory = r.memory })

abbrev pub on_return : {A : Type 0} → Action Region A → Action Forth A
on_return m s =
    let (result, r) = m (record { stack = s.return_stack; memory = s.memory }) in
    (result, record s { return_stack = r.stack; memory = r.memory })

-- `self._data_stack`
abbrev pub service_port : StackPort Forth
service_port = record {
  push = λ x. on_data (Stack.push x);
  pop = on_data Stack.pop;
  peek = on_data Stack.peek;
}

abbrev read_memory : ℤ → Action Forth ℤ
read_memory address s = (Memory.read s.memory address, s)

abbrev stored : Forth → Result Memory → Result (Unit {0}) × Forth
stored s (ok m) = (ok tt, record s { memory = m })
stored s (err e) = (err e, s)

abbrev write_memory : ℤ → ℤ → Action Forth (Unit {0})
write_memory address value s = stored s (Memory.write s.memory address value)

abbrev read_ip : Action Forth ℤ
read_ip s = (ok (Registers.read s.registers Register.ip), s)

abbrev write_ip : ℤ → Action Forth (Unit {0})
write_ip value s = (ok tt, record s { registers = Registers.write s.registers Register.ip value })

-- `@`
unfoldable pub word_fetch : Action Forth (Unit {0})
unfolding Stack.push Stack.pop Memory.read
word_fetch = do address ← on_data Stack.pop; value ← read_memory address; on_data (Stack.push value)

-- `_store`
unfoldable pub word_store : Action Forth (Unit {0})
unfolding Stack.pop Memory.write
word_store = do address ← on_data Stack.pop; value ← on_data Stack.pop; write_memory address value

-- `>R`
unfoldable pub word_to_r : Action Forth (Unit {0})
unfolding Stack.push Stack.pop
word_to_r = do value ← on_data Stack.pop; on_return (Stack.push value)

-- `R>`
unfoldable pub word_from_r : Action Forth (Unit {0})
unfolding Stack.push Stack.pop
word_from_r = do value ← on_return Stack.pop; on_data (Stack.push value)

-- `R@`
unfoldable pub word_r_fetch : Action Forth (Unit {0})
unfolding Stack.push Stack.peek
word_r_fetch = do value ← on_return Stack.peek; on_data (Stack.push value)

-- `_docol`, called with an address.
unfoldable pub word_docol : ℤ → Action Forth (Unit {0})
unfolding Stack.push Registers.read Registers.write
word_docol address = do ip ← read_ip; _ ← on_return (Stack.push ip); write_ip address

-- `_exit`
unfoldable pub word_exit : Action Forth (Unit {0})
unfolding Stack.pop Registers.write
word_exit = on_return Stack.pop >>= write_ip

-- `_bye`
unfoldable pub word_bye : Action Forth (Unit {0})
word_bye s = (ok tt, record s { halted = true })

-- `self.dictionary[word]()` for a primitive. `LIT` and `DOCOL` want an argument, so the call without
-- one raises `TypeError`.
unfoldable pub call_builtin : Builtin → Action Forth (Unit {0})
unfolding stack_word word_fetch word_store word_to_r word_from_r word_r_fetch word_exit word_bye
call_builtin (on_stack w) = stack_word service_port w
call_builtin fetch = word_fetch
call_builtin store = word_store
call_builtin to_r = word_to_r
call_builtin from_r = word_from_r
call_builtin r_fetch = word_r_fetch
call_builtin lit = raise type_error
call_builtin docol = raise type_error
call_builtin exit = word_exit
call_builtin bye = word_bye
call_builtin no_op = pure tt

abbrev pub call_or_unknown :
    (Word → Action Forth (Unit {0})) → Option Word → Action Forth (Unit {0})
call_or_unknown call none = raise unknown_word
call_or_unknown call (some word) = call word

-- The loop of `_execute_colon`, over what a call of a word does.
unfoldable pub each : (Word → Action Forth (Unit {0})) → List String → Action Forth (Unit {0})
each call [] s = (ok tt, s)
each call (name ∷ names) s = (call_or_unknown call (lookup name s.dictionary) >> each call names) s

abbrev pub found : Option (List String) → Result (List String)
found none = err key_error
found (some names) = ok names

-- `self.colon_defs[name]`
abbrev pub definition_of : String → Action Forth (List String)
definition_of name s = (found (lookup name s.colon_defs), s)

-- `self.dictionary[word]()`, with the number of colon definitions that may still be entered inside
-- one another before the interpreter raises `RecursionError`. Python counts every frame, so it may
-- also raise it inside a primitive, half-way; that case is left out: a limit stands for one at which
-- the frames of the primitives still fit.
unfoldable pub call : ℕ → Word → Action Forth (Unit {0})
unfolding call_builtin each
call depth (builtin b) = call_builtin b
call zero (colon name) = raise recursion_error
call (suc depth) (colon name) = definition_of name >>= each (call depth)

-- `add_colon_def`
unfoldable pub add_colon_def : String → List String → Forth → Forth
add_colon_def name code s = record s {
  colon_defs = (name, code) ∷ s.colon_defs;
  dictionary = (name, colon name) ∷ s.dictionary;
}

-- `build_minimal_dictionary`. An entry that is installed later would stand before these.
unfoldable pub minimal_dictionary : List (String × Word)
minimal_dictionary =
    ("DUP", builtin (on_stack StackWords.dup))
    ∷ ("DROP", builtin (on_stack StackWords.drop))
    ∷ ("SWAP", builtin (on_stack StackWords.swap))
    ∷ ("OVER", builtin (on_stack StackWords.over))
    ∷ ("ROT", builtin (on_stack StackWords.rot))
    ∷ ("-ROT", builtin (on_stack StackWords.neg_rot))
    ∷ ("NIP", builtin (on_stack StackWords.nip))
    ∷ ("TUCK", builtin (on_stack StackWords.tuck))
    ∷ ("+", builtin (on_stack StackWords.plus))
    ∷ ("-", builtin (on_stack StackWords.minus))
    ∷ ("*", builtin (on_stack StackWords.times))
    ∷ ("/", builtin (on_stack StackWords.divide))
    ∷ ("MOD", builtin (on_stack StackWords.mod_))
    ∷ ("NEGATE", builtin (on_stack StackWords.negate))
    ∷ ("ABS", builtin (on_stack StackWords.abs_))
    ∷ ("1+", builtin (on_stack StackWords.one_plus))
    ∷ ("1-", builtin (on_stack StackWords.one_minus))
    ∷ ("@", builtin fetch)
    ∷ ("!", builtin store)
    ∷ (">R", builtin to_r)
    ∷ ("R>", builtin from_r)
    ∷ ("R@", builtin r_fetch)
    ∷ ("=", builtin (on_stack StackWords.equal))
    ∷ ("<>", builtin (on_stack StackWords.not_equal))
    ∷ ("<", builtin (on_stack StackWords.less))
    ∷ (">", builtin (on_stack StackWords.greater))
    ∷ ("0=", builtin (on_stack StackWords.zero_equal))
    ∷ ("0<", builtin (on_stack StackWords.zero_less))
    ∷ ("AND", builtin (on_stack StackWords.and))
    ∷ ("OR", builtin (on_stack StackWords.or))
    ∷ ("INVERT", builtin (on_stack StackWords.invert_))
    ∷ ("LIT", builtin lit)
    ∷ ("DOCOL", builtin docol)
    ∷ ("EXIT", builtin exit)
    ∷ ("BYE", builtin bye)
    ∷ ("IF", builtin no_op)
    ∷ ("ELSE", builtin no_op)
    ∷ ("THEN", builtin no_op)
    ∷ ("BEGIN", builtin no_op)
    ∷ ("UNTIL", builtin no_op)
    ∷ ("WHILE", builtin no_op)
    ∷ ("REPEAT", builtin no_op)
    ∷ ("DO", builtin no_op)
    ∷ ("LOOP", builtin no_op)
    ∷ ("+LOOP", builtin no_op)
    ∷ []

-- `ForthService(...)`
unfoldable pub create : Memory → Stack → Stack → RegisterFile → Forth
unfolding minimal_dictionary
create memory data_stack return_stack registers = record {
  memory = memory;
  data_stack = data_stack;
  return_stack = return_stack;
  registers = registers;
  halted = false;
  dictionary = minimal_dictionary;
  colon_defs = [];
}

-- `build_standard_colon_defs`
unfoldable pub standard_colon_defs : Forth → Forth
unfolding add_colon_def
standard_colon_defs s = add_colon_def ";" ("EXIT" ∷ []) (
    add_colon_def "DO_PLUS_LOOP" ("DO" ∷ "+LOOP" ∷ []) (
      add_colon_def "DO_LOOP" ("DO" ∷ "LOOP" ∷ []) (
        add_colon_def "WHILE_REPEAT" ("WHILE" ∷ "REPEAT" ∷ []) (
          add_colon_def "BEGIN_UNTIL" ("BEGIN" ∷ "UNTIL" ∷ []) (
            add_colon_def "IF_ELSE_THEN" ("0BRANCH" ∷ "BRANCH" ∷ [])
              (add_colon_def "IF_THEN" ("0BRANCH" ∷ []) s))))))
