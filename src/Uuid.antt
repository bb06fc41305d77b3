-- ===== src/Uuid.antt =====
-- The standard library's `uuid.UUID(text)` and `str(uuid)`, as current_hub_client.py (`_uuid`) and
-- credentials.py (`validate_current_hub_credential`) use them to test for the canonical form.
-- A text is its list of code points. Of the digits and blanks that `int(text, 16)` reads, those
-- outside ASCII are refused here; a text that holds one is not canonical either way.
pub mod Canonical
use teslatlas_home_assistant.Prelude.{
  ℕ, zero, suc, ◌+◌, ◌-◌, ◌*◌, ◌/◌, ◌%◌, Bool, true, false, ◌&&◌, ◌||◌, not, Option, none, some,
  List, [], ◌∷◌, leb, ltb, ◌==◌, length, if◌then◌else◌,
}
use teslatlas_home_assistant.Prelude.Text.{eq_codes, codes}

starts_with : List ℕ → List ℕ → Bool
starts_with [] s = true
starts_with (p ∷ ps) [] = false
starts_with (p ∷ ps) (c ∷ s) = p == c && starts_with ps s

-- `text.replace(pat, '')`, with the number of characters of a match that are still to be skipped.
remove : List ℕ → ℕ → List ℕ → List ℕ
unfolding starts_with
remove pat skip [] = []
remove pat (suc skip) (c ∷ s) = remove pat skip s
remove pat zero (c ∷ s) =
    let kept = c ∷ remove pat zero s in
    let skipped = remove pat (length pat - 1) s in if starts_with pat (c ∷ s) then skipped else kept

-- `text.lstrip` and `text.rstrip` by a set of characters.
strip_left : (ℕ → Bool) → List ℕ → List ℕ
strip_left p [] = []
strip_left p (c ∷ s) = let rest = strip_left p s in if p c then rest else c ∷ s

abbrev is_nil : List ℕ → Bool
is_nil [] = true
is_nil (c ∷ s) = false

strip_right : (ℕ → Bool) → List ℕ → List ℕ
strip_right p [] = []
strip_right p (c ∷ s) = let rest = strip_right p s in if is_nil rest && p c then [] else c ∷ rest

abbrev is_brace : ℕ → Bool
is_brace c = c == b'{' || c == b'}'

abbrev is_space : ℕ → Bool
is_space c = c == 32 || (leb 9 c && leb c 13) || (leb 28 c && leb c 31)

-- `text.replace('-', '')`
undash : List ℕ → List ℕ
undash [] = []
undash (c ∷ s) = if c == b'-' then undash s else c ∷ undash s

hex_digit : ℕ → Option ℕ
hex_digit c =
    if leb b'0' c && leb c b'9'
    then some (c - b'0')
    else if leb b'a' c && leb c b'f'
    then some (c - b'a' + 10)
    else if leb b'A' c && leb c b'F'
    then some (c - b'A' + 10)
    else none

-- The digits of `int(text, 16)`: at least one, with single underscores between digits.
-- `after_digit` says whether the character before was a digit.
digits : Bool → ℕ → List ℕ → Option ℕ
unfolding hex_digit
digits after_digit n [] = if after_digit then some n else none
digits after_digit n (c ∷ s) =
    let next = digits false n s in
    elim (hex_digit c) [
      | some d ↦ digits true (n * 16 + d) s
      | none ↦ if c == b'_' && after_digit then next else none
    ]

-- An optional prefix 0x, after which an underscore may stand.
unprefixed : List ℕ → Option ℕ
unfolding digits
unprefixed (z ∷ x ∷ s) =
    if z == b'0' && (x == b'x' || x == b'X') then digits true 0 s else digits false 0 (z ∷ x ∷ s)
unprefixed s = digits false 0 s

unsigned : List ℕ → Option ℕ
unfolding unprefixed
unsigned (c ∷ s) = if c == b'+' then unprefixed s else unprefixed (c ∷ s)
unsigned [] = none

-- `int(text, 16)`, of a text with no minus sign
int_base16 : List ℕ → Option ℕ
unfolding strip_left strip_right unsigned
int_base16 s = unsigned (strip_right is_space (strip_left is_space s))

-- `UUID(text).int`; `none` is the `ValueError`.
parse : List ℕ → Option ℕ
parse s =
    let plain = remove (codes "uuid:") 0 (remove (codes "urn:") 0 s) in
    let hex = undash (strip_right is_brace (strip_left is_brace plain)) in
    if length hex == 32 then int_base16 hex else none

hex_char : ℕ → ℕ
hex_char d = if ltb d 10 then b'0' + d else b'a' + (d - 10)

-- The last `k` hexadecimal digits of `n`, in front of `rest`.
to_hex : ℕ → ℕ → List ℕ → List ℕ
unfolding hex_char
to_hex zero n rest = rest
to_hex (suc k) n rest = to_hex k (n / 16) (hex_char (n % 16) ∷ rest)

-- Where the canonical form has a digit and where it has a dash: 8-4-4-4-12.
abbrev pub layout : List Bool
layout =
    true ∷ true ∷ true ∷ true ∷ true ∷ true ∷ true ∷ true ∷ false ∷ true ∷ true ∷ true ∷ true
    ∷ false ∷ true ∷ true ∷ true ∷ true ∷ false ∷ true ∷ true ∷ true ∷ true ∷ false ∷ true ∷ true
    ∷ true ∷ true ∷ true ∷ true ∷ true ∷ true ∷ true ∷ true ∷ true ∷ true ∷ []

lay : List Bool → List ℕ → List ℕ
lay [] h = []
lay (false ∷ p) h = b'-' ∷ lay p h
lay (true ∷ p) [] = []
lay (true ∷ p) (c ∷ h) = c ∷ lay p h

-- `str(uuid)`
format : ℕ → List ℕ
format n = lay layout (to_hex 32 n [])

-- `UUID(text)` succeeds and `str(UUID(text)) == text`.
unfoldable pub is_own_uuid : List ℕ → Bool
unfolding starts_with remove strip_left strip_right undash hex_digit digits unprefixed unsigned
    int_base16 parse hex_char to_hex lay format
is_own_uuid s = elim (parse s) [ none ↦ false | some n ↦ eq_codes (format n) s ]
