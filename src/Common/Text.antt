-- ===== src/Common/Text.antt =====
-- What the program uses of Rust's text: trimming, blank texts, UTF-8 and decimal numbers. The
-- standard library's functions on `&str` are modelled over lists of code points.
use Prim.Native.Char.{code}
use Prim.Native.String.{◌++◌}
use webex_headless_messenger.Common.Tests.{
  ℕ, zero, suc, ◌+◌, ◌-◌, ◌*◌, ◌/◌, ◌%◌, String, Bool, true, false, ◌&&◌, ◌||◌, Option, none, some,
  List, [], ◌∷◌, reverse, leb, ltb, ◌==◌, if◌then◌else◌,
}

-- The code points of a text. `String` has its own `[]` and `∷`.
abbrev pub codes : String → List ℕ
codes String.[] = []
codes (String.◌∷◌ c s) = code c ∷ codes s

-- `char::is_whitespace`: the Unicode property White_Space.
unfoldable pub is_whitespace : ℕ → Bool
is_whitespace c =
    (leb 9 c && leb c 13)
    || c == 32
    || c == 0x85
    || c == 0xA0
    || c == 0x1680
    || (leb 0x2000 c && leb c 0x200A)
    || c == 0x2028
    || c == 0x2029
    || c == 0x202F
    || c == 0x205F
    || c == 0x3000

unfoldable pub trim_start : List ℕ → List ℕ
unfolding is_whitespace
trim_start [] = []
trim_start (c ∷ s) = let rest = trim_start s in if is_whitespace c then rest else c ∷ s

-- `str::trim`.
unfoldable pub trim : List ℕ → List ℕ
unfolding trim_start
trim s = reverse (trim_start (reverse (trim_start s)))

-- `s.trim().is_empty()`.
unfoldable pub is_blank : String → Bool
unfolding trim
is_blank s = elim (trim (codes s)) [ [] ↦ true | _ ∷ _ ↦ false ]

-- A decoder state of `str::from_utf8`: between characters, or `more` continuation bytes short of one
-- whose next byte must lie in `lo..=hi`.
pub data Utf8State : Type 0 where
  boundary : Utf8State
  inside : ℕ → ℕ → ℕ → ℕ → Utf8State

-- One byte: `none` where it is not valid there; a finished code point, if any, and the next state.
unfoldable pub utf8_byte : Utf8State → ℕ → Option (Option ℕ × Utf8State)
utf8_byte boundary b =
    if ltb b 0x80
    then some (some b, boundary)
    else if ltb b 0xC2
    then none
    else if leb b 0xDF
    then some (none, inside 0 0x80 0xBF (b - 0xC0))
    else if b == 0xE0
    then some (none, inside 1 0xA0 0xBF 0)
    else if b == 0xED
    then some (none, inside 1 0x80 0x9F 13)
    else if leb b 0xEF
    then some (none, inside 1 0x80 0xBF (b - 0xE0))
    else if b == 0xF0
    then some (none, inside 2 0x90 0xBF 0)
    else if leb b 0xF3
    then some (none, inside 2 0x80 0xBF (b - 0xF0))
    else if b == 0xF4
    then some (none, inside 2 0x80 0x8F 4)
    else none
utf8_byte (inside zero lo hi acc) b =
    if leb lo b && leb b hi then some (some (acc * 64 + (b - 0x80)), boundary) else none
utf8_byte (inside (suc more) lo hi acc) b =
    if leb lo b && leb b hi
    then some (none, inside more 0x80 0xBF (acc * 64 + (b - 0x80)))
    else none

abbrev cons_if : Option ℕ → Option (List ℕ) → Option (List ℕ)
cons_if c none = none
cons_if none (some s) = some s
cons_if (some c) (some s) = some (c ∷ s)

unfoldable pub utf8_loop : Utf8State → List ℕ → Option (List ℕ)
unfolding utf8_byte
utf8_loop boundary [] = some []
utf8_loop (inside more lo hi acc) [] = none
utf8_loop s (b ∷ bs) = elim (utf8_byte s b) [
  | none ↦ none
  | some (c, s') ↦ cons_if c (utf8_loop s' bs)
]

-- `str::from_utf8`.
unfoldable pub from_utf8 : List ℕ → Option (List ℕ)
unfolding utf8_loop
from_utf8 bs = utf8_loop boundary bs

abbrev pub digit : ℕ → String
digit n =
    if n == 0
    then "0"
    else if n == 1
    then "1"
    else if n == 2
    then "2"
    else if n == 3
    then "3"
    else if n == 4
    then "4"
    else if n == 5
    then "5"
    else if n == 6
    then "6"
    else if n == 7
    then "7"
    else if n == 8
    then "8"
    else "9"

-- A `u64` as `format!` prints it: at most 20 digits.
unfoldable pub display_digits : ℕ → ℕ → String
display_digits zero n = ""
display_digits (suc f) n =
    let rest = display_digits f (n / 10) in if ltb n 10 then digit n else rest ++ digit (n % 10)

unfoldable pub display_u64 : ℕ → String
unfolding display_digits
display_u64 n = display_digits 20 n
