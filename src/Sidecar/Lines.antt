-- ===== src/Sidecar/Lines.antt =====
-- What the receiver of src/bin/webex-headless.rs uses of Rust's text: `String::from_utf8_lossy`,
-- `str::lines`, `split_whitespace`, `split_once` and ASCII case, over code points.
use webex_headless_messenger.Common.{
  ℕ, ◌+◌, Bool, true, false, ◌&&◌, Option, none, some, List, [], ◌∷◌, leb, ◌==◌, if◌then◌else◌,
}
use webex_headless_messenger.Common.Text.{Utf8State, boundary, inside, utf8_byte, is_whitespace}

abbrev cons_code : Option ℕ → List ℕ → List ℕ
cons_code none s = s
cons_code (some c) s = c ∷ s

-- `String::from_utf8_lossy`: the longest start of a character that breaks off is one U+FFFD, and the byte
-- that breaks it off is read again between characters.
unfoldable pub lossy_loop : Utf8State → List ℕ → List ℕ
unfolding utf8_byte
lossy_loop boundary [] = []
lossy_loop (inside more lo hi acc) [] = 0xFFFD ∷ []
lossy_loop boundary (b ∷ bs) =
    let rest = lossy_loop boundary bs in
    elim (utf8_byte boundary b) [
      | none ↦ 0xFFFD ∷ rest
      | some (c, s) ↦ cons_code c (lossy_loop s bs)
    ]
lossy_loop (inside more lo hi acc) (b ∷ bs) =
    let rest = lossy_loop boundary bs in
    elim (utf8_byte (inside more lo hi acc) b) [
      | some (c, s) ↦ cons_code c (lossy_loop s bs)
      | none ↦ elim (utf8_byte boundary b) [
        | none ↦ 0xFFFD ∷ 0xFFFD ∷ rest
        | some (c, s) ↦ 0xFFFD ∷ cons_code c (lossy_loop s bs)
      ]
    ]

unfoldable pub from_utf8_lossy : List ℕ → List ℕ
unfolding lossy_loop
from_utf8_lossy bs = lossy_loop boundary bs

-- A character in front of the first part.
abbrev pub cons_part : ℕ → List (List ℕ) → List (List ℕ)
cons_part c [] = (c ∷ []) ∷ []
cons_part c (part ∷ parts) = (c ∷ part) ∷ parts

-- `str::lines`: a line ends at "\n" or "\r\n"; nothing behind the last end is no line.
unfoldable pub lines : List ℕ → List (List ℕ)
lines [] = []
lines (c ∷ []) = if c == 10 then [] ∷ [] else (c ∷ []) ∷ []
lines (c ∷ d ∷ s) =
    let rest = lines (d ∷ s) in
    if c == 10 then [] ∷ rest else if c == 13 && d == 10 then rest else cons_part c rest

-- The parts between the white space, also the empty ones.
unfoldable pub split_blank : List ℕ → List (List ℕ)
unfolding is_whitespace
split_blank [] = [] ∷ []
split_blank (c ∷ s) =
    let rest = split_blank s in if is_whitespace c then [] ∷ rest else cons_part c rest

abbrev pub full_parts : List (List ℕ) → List (List ℕ)
full_parts [] = []
full_parts ([] ∷ parts) = full_parts parts
full_parts ((c ∷ part) ∷ parts) = (c ∷ part) ∷ full_parts parts

-- `str::split_whitespace`.
unfoldable pub split_whitespace : List ℕ → List (List ℕ)
unfolding split_blank
split_whitespace s = full_parts (split_blank s)

unfoldable pub lower : ℕ → ℕ
lower c = if leb b'A' c && leb c b'Z' then c + 32 else c

-- `to_ascii_lowercase`.
unfoldable pub to_ascii_lowercase : List ℕ → List ℕ
unfolding lower
to_ascii_lowercase [] = []
to_ascii_lowercase (c ∷ s) = lower c ∷ to_ascii_lowercase s

abbrev before_colon : ℕ → Option (List ℕ × List ℕ) → Option (List ℕ × List ℕ)
before_colon c none = none
before_colon c (some (name, value)) = some (c ∷ name, value)

-- `split_once(':')`.
unfoldable pub split_once_colon : List ℕ → Option (List ℕ × List ℕ)
split_once_colon [] = none
split_once_colon (c ∷ s) =
    let rest = split_once_colon s in if c == b':' then some ([], s) else before_colon c rest

unfoldable pub text_eq : List ℕ → List ℕ → Bool
text_eq [] [] = true
text_eq [] (d ∷ t) = false
text_eq (c ∷ s) [] = false
text_eq (c ∷ s) (d ∷ t) = let rest = text_eq s t in if c == d then rest else false
