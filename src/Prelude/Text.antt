-- ===== src/Prelude/Text.antt =====
-- Python's `str` as a list of code points, for the code that walks a text.
use Prim.Native.Nat.{ℕ}
use Prim.Native.Char.{code}
use Prim.Native.String.{String}
use mathlib.Core.Path.{◌≡◌, refl}
use mathlib.Core.Bool.{Bool, true, false, ◌&&◌, ◌||◌}
use mathlib.Core.List.{List, [], ◌∷◌}
use native.Mathlib.Omega.{arith}
use teslatlas_home_assistant.Prelude.Tests.{leb, ◌==◌}

abbrev pub codes : String → List ℕ
codes String.[] = []
codes (String.◌∷◌ c s) = code c ∷ codes s

-- `s == t`, on code points.
unfoldable pub eq_codes : List ℕ → List ℕ → Bool
eq_codes [] [] = true
eq_codes (a ∷ s) (b ∷ t) = a == b && eq_codes s t
eq_codes _ _ = false

pub eq_codes_sound : (s t : List ℕ) → eq_codes s t ≡ true → s ≡ t
unfolding eq_codes
eq_codes_sound [] [] h = refl
eq_codes_sound (a ∷ s) (b ∷ t) h = ground (arith, eq_codes_sound s t)
eq_codes_sound [] (b ∷ t) h = cc
eq_codes_sound (a ∷ s) [] h = cc

pub eq_codes_refl : (s : List ℕ) → eq_codes s s ≡ true
unfolding eq_codes
eq_codes_refl [] = refl
eq_codes_refl (a ∷ s) = ground (arith, eq_codes_refl s)

-- A character of "0123456789abcdef".
abbrev pub is_lower_hex : ℕ → Bool
is_lower_hex c = (leb b'0' c && leb c b'9') || (leb b'a' c && leb c b'f')
