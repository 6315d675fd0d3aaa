-- ===== src/Assembler/Parser.antt =====
-- services/assembler/parser.py: `LineParser`.
use Prim.Native.String.{count}
use min_cpu_forth.Prelude.{
  ℕ, zero, suc, ◌+◌, String, code, Bool, true, false, Option, none, some, List, [], ◌∷◌, ◌==◌,
  if◌then◌else◌,
}
use min_cpu_forth.Prelude.Int.{negsuc}
use min_cpu_forth.Errors.{Result, ok, err, assembler_error, ◌>>=◌}
use min_cpu_forth.Domain.{Line}
use min_cpu_forth.Assembler.Text.{
  is_word, is_word_start, splitlines, lstrip, strip, span, split_on, is_empty, is_mnemonic,
  is_space,
}

abbrev not_space : ℕ → Bool
unfolding is_space
not_space c = if is_space c then false else true

abbrev colon_after : String → String → Option (String × String)
colon_after name String.[] = none
colon_after name (String.◌∷◌ c s) = if code c == b':' then some (name, s) else none

abbrev label_at : String → Option (String × String)
unfolding span is_word is_word_start
label_at String.[] = none
label_at (String.◌∷◌ c s) =
    if is_word_start (code c)
    then (let (front, rest) = span is_word s in colon_after (String.◌∷◌ c front) rest)
    else none

-- `_LABEL_PREFIX.match`: the label, and what follows its colon. The name is greedy, and no
-- shorter one is followed by a colon.
unfoldable pub match_label : String → Option (String × String)
unfolding lstrip label_at
match_label work = label_at (lstrip work)

-- The `while` of `_parse_line`, on fuel: each label takes two characters at least.
unfoldable pub peel_labels : ℕ → String → List String × String
unfolding match_label
peel_labels zero work = ([], work)
peel_labels (suc fuel) work = elim (match_label work) [
  | none ↦ ([], work)
  | some (name, rest) ↦ (let (labels, left) = peel_labels fuel rest in (name ∷ labels, left))
]

-- `_split_mnemonic`, on text that is not blank.
unfoldable pub split_mnemonic : String → Result (String × String)
unfolding span not_space lstrip is_mnemonic
split_mnemonic text =
    let (first, rest) = span not_space (lstrip text) in
    if is_mnemonic first then ok (first, lstrip rest) else err assembler_error

unfoldable pub operand_parts : List String → List String
unfolding strip is_empty
operand_parts [] = []
operand_parts (part ∷ parts) =
    let rest = operand_parts parts in
    let stripped = strip part in if is_empty stripped then rest else stripped ∷ rest

abbrev first_part : List String → String
first_part [] = String.[]
first_part (part ∷ _) = part

-- `raw.split(';', 1)[0]`
unfoldable pub without_comment : String → String
unfolding split_on
without_comment raw = first_part (split_on b';' raw)

unfoldable pub parse_line : ℕ → String → Result Line
unfolding without_comment peel_labels strip is_empty split_mnemonic operand_parts split_on
parse_line lineno raw =
    let work = without_comment raw in
    let (labels, left) = peel_labels (suc (count work)) work in
    let text = strip left in
    elim (is_empty text) [
      | true ↦ ok (record {
        lineno = lineno;
        labels = labels;
        mnemonic = none;
        operands = [];
        address = negsuc 0;
      })
      | false ↦ split_mnemonic text >>= λ (mnemonic, remainder). ok (record {
        lineno = lineno;
        labels = labels;
        mnemonic = some mnemonic;
        operands = operand_parts (split_on b',' remainder);
        address = negsuc 0;
      })
    ]

unfoldable pub parse_lines : ℕ → List String → Result (List Line)
unfolding parse_line
parse_lines lineno [] = ok []
parse_lines lineno (raw ∷ raws) =
    parse_line lineno raw >>= λ line. parse_lines (lineno + 1) raws >>= λ lines. ok (line ∷ lines)

-- `LineParser.parse`
unfoldable pub parse : String → Result (List Line)
unfolding splitlines parse_lines
parse source = parse_lines 1 (splitlines source)
