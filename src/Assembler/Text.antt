-- ===== src/Assembler/Text.antt =====
-- What the assembler takes from Python's `str`, `re` and `int`, over ASCII text: the classes of
-- characters, `splitlines`, `strip`, `split`, `isidentifier`, `isalnum` and `int(token, 0)`.
use min_cpu_forth.Prelude.{
  ℕ, zero, ◌+◌, ◌-◌, ◌*◌, String, code, Bool, true, false, ◌&&◌, ◌||◌, Option, none, some, List, [],
  ◌∷◌, ltb, leb, ◌==◌, if◌then◌else◌,
}
use Prim.Native.Char.{Char}
use min_cpu_forth.Prelude.Int.{ℤ, pos, ◌-ℤ◌}

abbrev within : ℕ → ℕ → ℕ → Bool
within lo hi c = leb lo c && leb c hi

-- `str.isspace` on ASCII: tab to carriage return, the four separators, and the space.
unfoldable pub is_space : ℕ → Bool
is_space c = within 9 13 c || within 28 31 c || c == 32

unfoldable pub is_digit : ℕ → Bool
is_digit c = within b'0' b'9' c

unfoldable pub is_alpha : ℕ → Bool
is_alpha c = within b'a' b'z' c || within b'A' b'Z' c

-- `\w`
unfoldable pub is_word : ℕ → Bool
unfolding is_alpha is_digit
is_word c = is_alpha c || is_digit c || c == b'_'

-- `[A-Za-z_]`
unfoldable pub is_word_start : ℕ → Bool
unfolding is_alpha
is_word_start c = is_alpha c || c == b'_'

-- The line boundaries of `str.splitlines` on ASCII: LF, VT, FF, CR, FS, GS, RS.
is_break : ℕ → Bool
is_break c = within 10 13 c || within 28 30 c

abbrev prefix_first : Char → List String → List String
prefix_first c [] = String.◌∷◌ c String.[] ∷ []
prefix_first c (l ∷ ls) = String.◌∷◌ c l ∷ ls

abbrev starts_with_code : ℕ → String → Bool
starts_with_code n String.[] = false
starts_with_code n (String.◌∷◌ c s) = code c == n

-- CR LF is one boundary: what follows a CR begins the line that the LF ends.
unfoldable pub splitlines : String → List String
unfolding is_break
splitlines String.[] = []
splitlines (String.◌∷◌ c s) =
    let rest = splitlines s in
    if is_break (code c)
    then (if code c == 13 && starts_with_code 10 s then rest else String.[] ∷ rest)
    else prefix_first c rest

unfoldable pub lstrip : String → String
unfolding is_space
lstrip String.[] = String.[]
lstrip (String.◌∷◌ c s) = elim (is_space (code c)) [ true ↦ lstrip s | false ↦ String.◌∷◌ c s ]

-- A blank is kept only where something follows it.
abbrev keep_blank : Char → String → String
keep_blank c String.[] = String.[]
keep_blank c (String.◌∷◌ d s) = String.◌∷◌ c (String.◌∷◌ d s)

unfoldable pub rstrip : String → String
unfolding is_space
rstrip String.[] = String.[]
rstrip (String.◌∷◌ c s) =
    let rest = rstrip s in if is_space (code c) then keep_blank c rest else String.◌∷◌ c rest

unfoldable pub strip : String → String
unfolding lstrip rstrip
strip s = rstrip (lstrip s)

-- The longest front of `s` whose characters pass `p`, and the rest.
unfoldable pub span : (ℕ → Bool) → String → String × String
span p String.[] = (String.[], String.[])
span p (String.◌∷◌ c s) =
    let (front, rest) = span p s in
    if p (code c) then (String.◌∷◌ c front, rest) else (String.[], String.◌∷◌ c s)

-- `s.split(sep)` for a separator of one character: never empty.
unfoldable pub split_on : ℕ → String → List String
split_on sep String.[] = String.[] ∷ []
split_on sep (String.◌∷◌ c s) =
    let rest = split_on sep s in if code c == sep then String.[] ∷ rest else prefix_first c rest

unfoldable pub is_empty : String → Bool
is_empty String.[] = true
is_empty (String.◌∷◌ c s) = false

unfoldable pub all_chars : (ℕ → Bool) → String → Bool
all_chars p String.[] = true
all_chars p (String.◌∷◌ c s) = p (code c) && all_chars p s

-- `str.isidentifier`
unfoldable pub is_identifier : String → Bool
unfolding is_word is_word_start all_chars
is_identifier String.[] = false
is_identifier (String.◌∷◌ c s) = is_word_start (code c) && all_chars is_word s

-- `token.replace('_', '').isalnum()`: some letter or digit, and nothing but those and `_`.
unfoldable pub has_alnum : String → Bool
unfolding is_alpha is_digit
has_alnum String.[] = false
has_alnum (String.◌∷◌ c s) = is_alpha (code c) || is_digit (code c) || has_alnum s

unfoldable pub is_mnemonic : String → Bool
unfolding has_alnum all_chars is_word
is_mnemonic s = has_alnum s && all_chars is_word s

-- The value of a digit or letter in a base of 16 or less.
digit_value : ℕ → Option ℕ
unfolding is_digit
digit_value c =
    if is_digit c
    then some (c - b'0')
    else if within b'a' b'f' c
    then some (c - b'a' + 10)
    else if within b'A' b'F' c
    then some (c - b'A' + 10)
    else none

abbrev digit_below : ℕ → Option ℕ → Option ℕ
digit_below base none = none
digit_below base (some d) = if ltb d base then some d else none

-- Digits with single underscores between them; `after_digit` holds where one may stand or the
-- number may end.
digits : ℕ → ℕ → Bool → String → Option ℕ
unfolding digit_value
digits base acc after_digit String.[] = if after_digit then some acc else none
digits base acc after_digit (String.◌∷◌ c s) = elim (code c == b'_') [
  | true ↦ elim after_digit [ true ↦ digits base acc false s | false ↦ none ]
  | false ↦ elim (digit_below base (digit_value (code c))) [
    | none ↦ none
    | some d ↦ digits base (acc * base + d) true s
  ]
]

abbrev nonzero_refused : Option ℕ → Option ℕ
nonzero_refused (some zero) = some 0
nonzero_refused _ = none

-- The digits of a decimal token; Python refuses more than 4300 of them.
digit_count : String → ℕ
digit_count String.[] = 0
digit_count (String.◌∷◌ c s) = if code c == b'_' then digit_count s else digit_count s + 1

abbrev limited : ℕ → Option ℕ → Option ℕ
limited count o = if leb count 4300 then o else none

-- After a base prefix an underscore may follow at once, but something must.
abbrev prefixed : ℕ → String → Option ℕ
unfolding digits
prefixed base String.[] = none
prefixed base (String.◌∷◌ c s) = digits base 0 true (String.◌∷◌ c s)

-- What follows a leading `0`: a base prefix, or more zeros.
after_zero : String → Option ℕ
unfolding digits digit_count
after_zero String.[] = some 0
after_zero (String.◌∷◌ c s) =
    let n = code c in
    if n == b'x' || n == b'X'
    then prefixed 16 s
    else if n == b'o' || n == b'O'
    then prefixed 8 s
    else if n == b'b' || n == b'B'
    then prefixed 2 s
    else limited (digit_count (String.◌∷◌ c s) + 1)
        (nonzero_refused (digits 10 0 true (String.◌∷◌ c s)))

unsigned : String → Option ℕ
unfolding after_zero digits digit_count
unsigned String.[] = none
unsigned (String.◌∷◌ c s) =
    if code c == b'0'
    then after_zero s
    else limited (digit_count (String.◌∷◌ c s)) (digits 10 0 false (String.◌∷◌ c s))

abbrev negated : Option ℕ → Option ℤ
unfolding ◌-ℤ◌
negated none = none
negated (some n) = some (pos 0 -ℤ pos n)

abbrev positive : Option ℕ → Option ℤ
positive none = none
positive (some n) = some (pos n)

abbrev signed : String → Option ℤ
unfolding unsigned ◌-ℤ◌
signed String.[] = none
signed (String.◌∷◌ c s) =
    if code c == b'-'
    then negated (unsigned s)
    else if code c == b'+'
    then positive (unsigned s)
    else positive (unsigned (String.◌∷◌ c s))

-- `int(token, 0)`, with `none` for `ValueError`.
unfoldable pub int_base_zero : String → Option ℤ
unfolding signed unsigned strip
int_base_zero token = signed (strip token)
