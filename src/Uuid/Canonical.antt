-- ===== src/Uuid/Canonical.antt =====
-- The round trip through `uuid.UUID` picks out exactly the lowercase 8-4-4-4-12 form.
use teslatlas_home_assistant.Prelude.{
  ℕ, zero, suc, ◌+◌, ◌-◌, ◌*◌, ◌||◌, leb, ◌/◌, ◌%◌, ◌<◌, ◌≡◌, refl, ap, Bool, true, false, ◌&&◌,
  some, List, [], ◌∷◌, ◌++◌, arith, ◌∙◌, ◌==◌, length, All, Bool-cases, Option-cases, inl, inr,
  if◌then◌else◌,
}
use teslatlas_home_assistant.Prelude.Text.{
  is_lower_hex, eq_codes, eq_codes_sound, eq_codes_refl, codes,
}
use native.Mathlib.Nat.{zero-add}
use mathlib.Core.List.{append-nil}
use teslatlas_home_assistant.Uuid.{
  remove, strip_left, strip_right, is_brace, is_space, undash, hex_digit, digits, unprefixed,
  unsigned, int_base16, parse, hex_char, to_hex, layout, lay, format, is_own_uuid,
}

-- The text has a lowercase hexadecimal digit, or a dash, exactly where the layout says.
unfoldable pub fits : List Bool → List ℕ → Bool
fits [] [] = true
fits (true ∷ p) (c ∷ s) = is_lower_hex c && fits p s
fits (false ∷ p) (c ∷ s) = c == b'-' && fits p s
fits [] (c ∷ s) = false
fits (b ∷ p) [] = false

-- The canonical form of a UUID.
abbrev pub is_canonical : List ℕ → Bool
is_canonical s = fits layout s

abbrev AreHex : List ℕ → Type 0
AreHex = All (λ c. is_lower_hex c ≡ true)

abbrev is_plain : ℕ → Bool
is_plain c = if is_lower_hex c then true else c == b'-'

abbrev ArePlain : List ℕ → Type 0
ArePlain = All (λ c. is_plain c ≡ true)

fits-ArePlain : (p : List Bool) (s : List ℕ) → fits p s ≡ true → ArePlain s
unfolding fits
fits-ArePlain [] [] h = tt
fits-ArePlain [] (c ∷ s) h = cc
fits-ArePlain (b ∷ p) [] h = tt
fits-ArePlain (true ∷ p) (c ∷ s) h = (ground arith, fits-ArePlain p s (ground arith))
fits-ArePlain (false ∷ p) (c ∷ s) h = (ground arith, fits-ArePlain p s (ground arith))

remove-plain : (ps : List ℕ) (s : List ℕ) → ArePlain s → remove (b'u' ∷ ps) 0 s ≡ s
unfolding remove
remove-plain ps [] h = refl
remove-plain ps (c ∷ s) h =
    let e : (b'u' == c) ≡ false = ground (arith, h.0) in
    rw e (ap (λ t. c ∷ t) (remove-plain ps s h.1))

strip_left-kept : (p : ℕ → Bool) (s : List ℕ) → All (λ c. p c ≡ false) s → strip_left p s ≡ s
unfolding strip_left
strip_left-kept p [] h = refl
strip_left-kept p (c ∷ s) h = rw h.0

strip_right-kept : (p : ℕ → Bool) (s : List ℕ) → All (λ c. p c ≡ false) s → strip_right p s ≡ s
unfolding strip_right
strip_right-kept p [] h = refl
strip_right-kept p (c ∷ s) h = ground (arith, h.0, strip_right-kept p s h.1)

plain-not-brace : (s : List ℕ) → ArePlain s → All (λ c. is_brace c ≡ false) s
plain-not-brace [] h = tt
plain-not-brace (c ∷ s) h = (ground (arith, h.0), plain-not-brace s h.1)

hex-not-space : (s : List ℕ) → AreHex s → All (λ c. is_space c ≡ false) s
hex-not-space [] h = tt
hex-not-space (c ∷ s) h = (ground (arith, h.0), hex-not-space s h.1)

digit_value : ℕ → ℕ
digit_value c = if leb c b'9' then c - b'0' else c - b'a' + 10

hex_digit-lower : (c : ℕ) → is_lower_hex c ≡ true → hex_digit c ≡ some (digit_value c)
unfolding hex_digit digit_value
hex_digit-lower c h = ground arith

digit_value-lt : (c : ℕ) → is_lower_hex c ≡ true → digit_value c < 16
unfolding digit_value
digit_value-lt c h = ground arith

hex_char-digit_value : (c : ℕ) → is_lower_hex c ≡ true → hex_char (digit_value c) ≡ c
unfolding hex_char digit_value
hex_char-digit_value c h = ground arith

-- The value of a row of lowercase digits, from the left.
value : ℕ → List ℕ → ℕ
value n [] = n
value n (c ∷ s) = value (n * 16 + digit_value c) s

digits-value : (s : List ℕ) (n : ℕ) → AreHex s → digits true n s ≡ some (value n s)
unfolding digits value
digits-value [] n h = refl
digits-value (c ∷ s) n h = rw (hex_digit-lower c h.0, digits) (digits-value s _ h.1)

digits_start :
    (c : ℕ) (s : List ℕ) → AreHex (c ∷ s) → digits false 0 (c ∷ s) ≡ some (value 0 (c ∷ s))
unfolding digits value
digits_start c s h = rw (hex_digit-lower c h.0, digits) (digits-value s _ h.1)

unprefixed-value :
    (c d : ℕ) (s : List ℕ)
    → AreHex (c ∷ d ∷ s)
    → unprefixed (c ∷ d ∷ s) ≡ some (value 0 (c ∷ d ∷ s))
unfolding unprefixed
unprefixed-value c d s h =
    let e : (c == b'0' && (d == b'x' || d == b'X')) ≡ false = ground (arith, h.1.0) in
    rw e (digits_start c (d ∷ s) h)

int_base16-value :
    (c d : ℕ) (s : List ℕ)
    → AreHex (c ∷ d ∷ s)
    → int_base16 (c ∷ d ∷ s) ≡ some (value 0 (c ∷ d ∷ s))
unfolding int_base16 unsigned
int_base16-value c d s h =
    let clean = hex-not-space (c ∷ d ∷ s) h in
    rw (strip_left-kept is_space (c ∷ d ∷ s) clean, strip_right-kept is_space (c ∷ d ∷ s) clean)
      (let e : (c == b'+') ≡ false = ground (arith, h.0) in rw e (unprefixed-value c d s h))

abbrev count_digits : List Bool → ℕ
count_digits [] = 0
count_digits (true ∷ p) = suc (count_digits p)
count_digits (false ∷ p) = count_digits p

undash-AreHex : (p : List Bool) (s : List ℕ) → fits p s ≡ true → AreHex (undash s)
unfolding fits undash
undash-AreHex [] [] h = tt
undash-AreHex [] (c ∷ s) h = cc
undash-AreHex (b ∷ p) [] h = tt
undash-AreHex (true ∷ p) (c ∷ s) h =
    let e : (c == b'-') ≡ false = ground arith in
    rw e (ground arith, undash-AreHex p s (ground arith))
undash-AreHex (false ∷ p) (c ∷ s) h =
    let e : (c == b'-') ≡ true = ground arith in rw e (undash-AreHex p s (ground arith))

length-undash : (p : List Bool) (s : List ℕ) → fits p s ≡ true → length (undash s) ≡ count_digits p
unfolding fits undash
length-undash [] [] h = refl
length-undash [] (c ∷ s) h = cc
length-undash (b ∷ p) [] h = cc
length-undash (true ∷ p) (c ∷ s) h = ground (arith, length-undash p s)
length-undash (false ∷ p) (c ∷ s) h = ground (arith, length-undash p s)

lay-undash : (p : List Bool) (s : List ℕ) → fits p s ≡ true → lay p (undash s) ≡ s
unfolding fits undash lay
lay-undash [] [] h = refl
lay-undash [] (c ∷ s) h = cc
lay-undash (b ∷ p) [] h = cc
lay-undash (true ∷ p) (c ∷ s) h =
    let e : (c == b'-') ≡ false = ground arith in
    rw e (ap (λ t. c ∷ t) (lay-undash p s (ground arith)))
lay-undash (false ∷ p) (c ∷ s) h = ground (arith, lay-undash p s)

-- The digits that are peeled off a value from the right are those it was read from.
to_hex-value :
    (s : List ℕ) (n m : ℕ) (rest : List ℕ)
    → AreHex s
    → to_hex (length s + m) (value n s) rest ≡ to_hex m n (s ++ rest)
unfolding value
to_hex-value [] n m rest h = rw zero-add
to_hex-value (c ∷ s) n m rest h =
    let shift : suc (length s) + m ≡ length s + suc m = omega arith in
    rw shift (
      rw (to_hex-value s (n * 16 + digit_value c) (suc m) rest h.1) (
        unfold to_hex in
        let q : (n * 16 + digit_value c) / 16 ≡ n = omega (arith, digit_value-lt c h.0) in
        let r : (n * 16 + digit_value c) % 16 ≡ digit_value c =
          omega (arith, digit_value-lt c h.0) in
        rw (q, r, hex_char-digit_value c h.0)))

int_base16_of_length : (h : List ℕ) → length h ≡ 32 → AreHex h → int_base16 h ≡ some (value 0 h)
int_base16_of_length [] e h = absurd (omega arith)
int_base16_of_length (c ∷ []) e h = absurd (omega arith)
int_base16_of_length (c ∷ d ∷ s) e h = int_base16-value c d s h

parse-canonical : (s : List ℕ) → is_canonical s ≡ true → parse s ≡ some (value 0 (undash s))
unfolding parse
parse-canonical s h =
    let plain = fits-ArePlain layout s h in
    let clean = plain-not-brace s plain in
    let size : length (undash s) ≡ 32 = length-undash layout s h in
    rw (remove-plain (codes "rn:") s plain, remove-plain (codes "uid:") s plain)
      (rw (strip_left-kept is_brace s clean, strip_right-kept is_brace s clean)
        (rw size (int_base16_of_length (undash s) size (undash-AreHex layout s h))))

to_hex-back : (h : List ℕ) → length h ≡ 32 → AreHex h → to_hex 32 (value 0 h) [] ≡ h
to_hex-back h e a =
    let size : length h + 0 ≡ 32 = omega arith in
    rw size at (to_hex-value h 0 0 [] a) ∙ (unfold to_hex in append-nil h)

format-value : (s : List ℕ) → is_canonical s ≡ true → format (value 0 (undash s)) ≡ s
unfolding format
format-value s h =
    rw (to_hex-back (undash s) (length-undash layout s h) (undash-AreHex layout s h))
      (lay-undash layout s h)

hex_char-lower : (d : ℕ) → d < 16 → is_lower_hex (hex_char d) ≡ true
unfolding hex_char
hex_char-lower d h = ground arith

to_hex-AreHex : (k n : ℕ) (rest : List ℕ) → AreHex rest → AreHex (to_hex k n rest)
unfolding to_hex
to_hex-AreHex zero n rest h = h
to_hex-AreHex (suc k) n rest h =
    to_hex-AreHex k (n / 16) (hex_char (n % 16) ∷ rest) (hex_char-lower (n % 16) (omega arith), h)

length-to_hex : (k n : ℕ) (rest : List ℕ) → length (to_hex k n rest) ≡ k + length rest
unfolding to_hex
length-to_hex zero n rest = omega arith
length-to_hex (suc k) n rest = omega (arith, length-to_hex k (n / 16) (hex_char (n % 16) ∷ rest))

fits-lay :
    (p : List Bool) (h : List ℕ) → AreHex h → length h ≡ count_digits p → fits p (lay p h) ≡ true
unfolding fits lay
fits-lay [] h a e = refl
fits-lay (false ∷ p) h a e = fits-lay p h a e
fits-lay (true ∷ p) [] a e = absurd (omega arith)
fits-lay (true ∷ p) (c ∷ h) a e = rw a.0 (fits-lay p h a.1 (omega arith))

format-canonical : (n : ℕ) → is_canonical (format n) ≡ true
unfolding format
format-canonical n =
    fits-lay layout (to_hex 32 n []) (to_hex-AreHex 32 n [] tt)
      (omega (arith, length-to_hex 32 n []))

is_own_uuid-not : (s : List ℕ) → is_canonical s ≡ false → is_own_uuid s ≡ false
unfolding is_own_uuid
is_own_uuid-not s h = elim (Option-cases (parse s)) [
  | inl e ↦ rw (e, is_own_uuid)
  | inr (n, e) ↦
      rw (e, is_own_uuid)
        (elim (Bool-cases (eq_codes (format n) s)) [
          | inl same ↦
              cc
                (h, ap (λ t. is_canonical t) (eq_codes_sound (format n) s same), format-canonical n)
          | inr differ ↦ differ
        ])
]

is_own_uuid-true : (s : List ℕ) → is_canonical s ≡ true → is_own_uuid s ≡ true
unfolding is_own_uuid
is_own_uuid-true s h =
    rw (parse-canonical s h, is_own_uuid) (rw (format-value s h) (eq_codes_refl s))

-- `UUID(text)` succeeds and prints as the very text exactly when the text is 36 characters with
-- dashes in the four places of the 8-4-4-4-12 layout and lowercase hexadecimal digits in all others.
pub is_own_uuid-canonical : (s : List ℕ) → is_own_uuid s ≡ is_canonical s
is_own_uuid-canonical s = elim (Bool-cases (is_canonical s)) [
  | inl h ↦ rw h (is_own_uuid-true s h)
  | inr h ↦ rw h (is_own_uuid-not s h)
]
