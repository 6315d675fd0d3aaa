-- ===== src/Dictionary/Words.antt =====
-- src/min_cpu_forth/adapters/dictionary.py: `MemoryDictionaryAdapter`.
use min_cpu_forth.Prelude.{
  ℕ, zero, suc, Bool, true, false, not, List, [], ◌∷◌, length, Option, none, some, ◌==◌, ◌&&◌,
  if◌then◌else◌,
}
use min_cpu_forth.Prelude.Int.{ℤ, pos, ◌+ℤ◌, ◌-ℤ◌, eqb_ℤ}
use min_cpu_forth.Layout.{dictionary_base}
use min_cpu_forth.Errors
use min_cpu_forth.Errors.{Result, ok, err}
use min_cpu_forth.Effects.{Action, pure, ◌>>=◌, ◌>>◌}
use min_cpu_forth.Domain.HeaderField
use min_cpu_forth.Memory
use min_cpu_forth.Memory.{Memory}
use min_cpu_forth.Dictionary.CountedString
use min_cpu_forth.Dictionary.CountedString.{store}
use min_cpu_forth.Dictionary.Variables.{dp, set_dp, latest, set_latest}

-- `DictionaryHeaderDto`
pub record Header : Type 0 where
  pub name : List ℕ
  pub link : ℤ
  pub immediate : Bool
  pub smudge : Bool
  pub cfa : ℤ

-- What a read of the memory returns, or raises.
abbrev reads : {A : Type 0} → (Memory → Result A) → Action Memory A
reads f m = (f m, m)

-- `MemoryDictionaryAdapter(memory, ...)`
unfoldable pub reset : Action Memory (Unit {0})
unfolding set_dp set_latest
reset = set_dp (pos dictionary_base) >> set_latest (pos 0)

-- `here`
unfoldable pub here : Action Memory ℤ
unfolding dp
here = reads dp

-- `append_cell`
unfoldable pub append_cell : ℤ → Action Memory ℤ
unfolding here store set_dp ◌+ℤ◌
append_cell value =
    here >>= λ address. store address value >> (set_dp (address +ℤ pos 1) >> pure address)

-- `int(immediate)`
abbrev pub as_cell : Bool → ℤ
as_cell true = pos 1
as_cell false = pos 0

-- The `for` of `append_word`.
unfoldable pub append_thread : List ℤ → Action Memory (Unit {0})
unfolding append_cell
append_thread [] = pure tt
append_thread (item ∷ items) = append_cell item >>= λ _. append_thread items

-- `append_word`
unfoldable pub append_word : List ℕ → ℤ → List ℤ → Bool → Action Memory ℤ
unfolding append_cell append_thread here set_dp set_latest latest CountedString.write
append_word name code_field thread immediate = do
  link ← reads latest
  _ ← append_cell link
  _ ← append_cell (as_cell immediate)
  _ ← append_cell (pos 0)
  name_field ← here
  past ← CountedString.write name_field name
  _ ← set_dp past
  cfa ← here
  _ ← append_cell code_field
  _ ← append_thread thread
  _ ← set_latest name_field
  pure cfa

-- `bool(cell)`
abbrev pub truth : ℤ → Bool
truth cell = not (eqb_ℤ cell (pos 0))

-- `_read_header`
unfoldable pub read_header : Memory → ℤ → Result Header
unfolding CountedString.read Memory.read ◌+ℤ◌ ◌-ℤ◌
read_header m name_field =
    let start = name_field -ℤ pos HeaderField.name_length in
    Errors.◌>>=◌ (CountedString.read m name_field) λ name.
      Errors.◌>>=◌ (Memory.read m (start +ℤ pos HeaderField.link)) λ link.
        Errors.◌>>=◌ (Memory.read m (start +ℤ pos HeaderField.immediate)) λ immediate.
          Errors.◌>>=◌ (Memory.read m (start +ℤ pos HeaderField.smudge)) λ smudge. ok (record {
            name = name;
            link = link;
            immediate = truth immediate;
            smudge = truth smudge;
            cfa = name_field +ℤ pos 1 +ℤ pos (length name);
          })

-- `==` on strings.
unfoldable pub text_eq : List ℕ → List ℕ → Bool
text_eq [] [] = true
text_eq [] (d ∷ ds) = false
text_eq (c ∷ cs) [] = false
text_eq (c ∷ cs) (d ∷ ds) = (c == d) && text_eq cs ds

abbrev match_or :
    List ℕ → Result Header → Option (Result (Option Header)) → Option (Result (Option Header))
match_or name (err e) rest = some (err e)
match_or name (ok header) rest = if text_eq header.name name then some (ok (some header)) else rest

abbrev follow : (ℤ → Option (Result (Option Header))) → Result ℤ → Option (Result (Option Header))
follow rest (err e) = some (err e)
follow rest (ok link) = rest link

-- `find` over `headers`, from a name field. Links that form a cycle make the loop of the source
-- endless: the argument counts the headers that are left to look at, and `none` is where it runs
-- out.
unfoldable pub find_from : ℕ → Memory → List ℕ → ℤ → Option (Result (Option Header))
unfolding read_header text_eq Memory.read ◌-ℤ◌
find_from zero m name name_field = if eqb_ℤ name_field (pos 0) then some (ok none) else none
find_from (suc fuel) m name name_field =
    let rest = find_from fuel m name in
    if eqb_ℤ name_field (pos 0)
    then some (ok none)
    else match_or name (read_header m name_field)
        (follow rest (Memory.read m (name_field -ℤ pos HeaderField.name_length)))

-- `find`
unfoldable pub find : ℕ → Memory → List ℕ → Option (Result (Option Header))
unfolding find_from latest
find fuel m name = follow (find_from fuel m name) (latest m)
