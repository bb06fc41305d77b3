-- ===== src/Wire/Framing.antt =====
-- The reader of the lines that the broker sends, whatever pieces they arrive in.
use teslatlas_home_assistant.Prelude.{
  ℕ, ◌≤◌, ◌==◌, leb, ◌≡◌, refl, sym, ap, ◌∙◌, true, false, List, [], ◌∷◌, ◌++◌, Option, none, some,
  length, All, arith, Bool-cases, Option-cases, inl, inr, ==_iff,
}
use mathlib.Core.List.{append-nil, append_assoc, head-eq_of_cons-eq, tail-eq_of_cons-eq}
use mathlib.Core.Option.{some-injective}
use teslatlas_home_assistant.Errors.{Result, ok}
use teslatlas_home_assistant.Wire.{
  max_frame_bytes, Reads, expired, finished, chunk, longer, split_line, bounded_line, found_line,
  read_line,
}

-- The bytes that are still to come.
abbrev pub bytes_of : Reads → List ℕ
bytes_of expired = []
bytes_of finished = []
bytes_of (chunk bytes more) = bytes ++ bytes_of more

-- No byte is a newline.
abbrev pub IsLine : List ℕ → Type 0
IsLine = All (λ c. (c == 10) ≡ false)

split_line-append :
    (line rest : List ℕ) → IsLine line → split_line (line ++ (10 ∷ rest)) ≡ some (line, rest)
unfolding split_line
split_line-append [] rest h = refl
split_line-append (c ∷ line) rest (h, hs) = rw (h, split_line-append line rest hs)

longer-some :
    (c : ℕ) (o : Option (List ℕ × List ℕ)) {line rest : List ℕ}
    → longer c o ≡ some (line, rest)
    → (l : List ℕ) × (o ≡ some (l, rest)) × (c ∷ l ≡ line)
longer-some c none h = cc
longer-some c (some (l, r)) h =
    let e = some-injective _ _ h in (l, ap (λ t. some (l, t)) (ap (λ p. p.1) e), ap (λ p. p.0) e)

-- More bytes do not change a line that is there.
split_line-more :
    (buffer more : List ℕ) {line rest : List ℕ}
    → split_line buffer ≡ some (line, rest)
    → split_line (buffer ++ more) ≡ some (line, rest ++ more)
unfolding split_line
split_line-more [] more h = cc
split_line-more (c ∷ buffer) more h = elim (Bool-cases (c == 10)) [
  | inl e ↦
      let same = some-injective _ _ (rw e at h) in rw e (ap (λ p. some (p.0, p.1 ++ more)) same)
  | inr e ↦
      let (l, found, same) = longer-some c (split_line buffer) (rw e at h) in
      rw (e, split_line-more buffer more found, same)
]

le-leb : (m n : ℕ) → m ≤ n → leb m n ≡ true
le-leb m n h = ground arith

longer-none : (c : ℕ) (o : Option (List ℕ × List ℕ)) → longer c o ≡ none → o ≡ none
longer-none c none h = refl
longer-none c (some p) h = cc

-- A buffer without a newline is no longer than the line that it begins.
buffer_bounded :
    (buffer more line rest : List ℕ)
    → split_line buffer ≡ none
    → IsLine line
    → buffer ++ more ≡ line ++ (10 ∷ rest)
    → length buffer ≤ length line
unfolding split_line
buffer_bounded [] more line rest none_there h e = omega arith
buffer_bounded (c ∷ buffer) more [] rest none_there h e =
    let newline : (c == 10) ≡ true = (==_iff c 10).1 (head-eq_of_cons-eq e) in
    absurd (cc (rw newline at none_there))
buffer_bounded (c ∷ buffer) more (d ∷ line) rest none_there h e = elim (Bool-cases (c == 10)) [
  | inl newline ↦ absurd (cc (rw newline at none_there))
  | inr other ↦
      let later = longer-none c (split_line buffer) (rw other at none_there) in
      omega (arith, buffer_bounded buffer more line rest later h.1 (tail-eq_of_cons-eq e))
]

-- What a reader comes to that has found the line, and all that follows it.
abbrev pub ReadsLine : List ℕ → List ℕ → Result (List ℕ × List ℕ) × Reads → Type 0
ReadsLine line rest (r, later) =
    (left : List ℕ) × (r ≡ ok (line, left)) × (left ++ bytes_of later ≡ rest)

found-ReadsLine :
    (buffer line rest : List ℕ) (reads : Reads) (found : List ℕ × List ℕ)
    → split_line buffer ≡ some found
    → IsLine line
    → length line ≤ max_frame_bytes
    → buffer ++ bytes_of reads ≡ line ++ (10 ∷ rest)
    → ReadsLine line rest (bounded_line found, reads)
found-ReadsLine buffer line rest reads (l, r) found h short e =
    let both : some (l, r ++ bytes_of reads) ≡ some (line, rest) =
      sym (split_line-more buffer (bytes_of reads) found)
      ∙ ap split_line e
      ∙ split_line-append line rest h in
    let pair = some-injective _ _ both in
    let same : l ≡ line = ap (λ p. p.0) pair in
    let fits : leb (length l) max_frame_bytes ≡ true =
      rw same (le-leb (length line) max_frame_bytes short) in
    (r, rw fits (ap (λ t. ok (t, r)) same), ap (λ p. p.1) pair)

-- Without any bytes to come, the buffer has the line.
last-ReadsLine :
    (buffer line rest : List ℕ) (reads : Reads)
    → bytes_of reads ≡ []
    → IsLine line
    → length line ≤ max_frame_bytes
    → buffer ++ bytes_of reads ≡ line ++ (10 ∷ rest)
    → ReadsLine line rest (found_line (split_line buffer), reads)
last-ReadsLine buffer line rest reads nothing h short e = elim (Option-cases (split_line buffer)) [
  | inl missing ↦
      let whole : buffer ≡ line ++ (10 ∷ rest) =
        sym (append-nil buffer) ∙ ap (λ t. buffer ++ t) (sym nothing) ∙ e in
      absurd (cc (sym missing ∙ ap split_line whole ∙ split_line-append line rest h))
  | inr (found, there) ↦ rw there (found-ReadsLine buffer line rest reads found there h short e)
]

-- Bytes that are at most the bound of a frame, have no newline among them and are followed by one are
-- read as they were sent, in whatever pieces they arrive: what is left of the buffer and the bytes to
-- come are what follows the newline.
pub read_line-ReadsLine :
    (buffer line rest : List ℕ) (reads : Reads)
    → IsLine line
    → length line ≤ max_frame_bytes
    → buffer ++ bytes_of reads ≡ line ++ (10 ∷ rest)
    → ReadsLine line rest (read_line buffer reads)
unfolding read_line
read_line-ReadsLine buffer line rest expired h short e =
    last-ReadsLine buffer line rest expired refl h short e
read_line-ReadsLine buffer line rest finished h short e =
    last-ReadsLine buffer line rest finished refl h short e
read_line-ReadsLine buffer line rest (chunk bytes more) h short e =
    elim (Option-cases (split_line buffer)) [
      | inr (found, there) ↦
          rw there (found-ReadsLine buffer line rest (chunk bytes more) found there h short e)
      | inl missing ↦
          let within = buffer_bounded buffer (bytes ++ bytes_of more) line rest missing h e in
          let fits : leb (length buffer) max_frame_bytes ≡ true =
            le-leb (length buffer) max_frame_bytes (omega (arith, within, short)) in
          rw (missing, fits)
            (read_line-ReadsLine (buffer ++ bytes) line rest more h short
              (append_assoc buffer bytes (bytes_of more) ∙ e))
    ]
