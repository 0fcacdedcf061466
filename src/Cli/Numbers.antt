-- ===== src/Cli/Numbers.antt =====
-- src/bin/webex-headless.rs: `parse_u16`, `parse_u64` and `parse_usize`, with `str::parse` of an unsigned
-- number. `usize` has 64 bits.
pub mod Digits
pub mod Range
use webex_headless_messenger.Common.{
  ℕ, ◌+◌, ◌-◌, ◌*◌, ◌^◌, String, ◌&&◌, Option, none, some, List, [], ◌∷◌, ltb, leb, ◌==◌,
  if◌then◌else◌, IntError, empty, invalid_digit, pos_overflow, cli, bad_number, Result, ok, err,
}
use webex_headless_messenger.Common.Text.{codes}

-- What the loop over the digits returns.
pub data Parsed : Type 0 where
  number : ℕ → Parsed
  bad : IntError → Parsed

unfoldable pub parse_digits : ℕ → ℕ → List ℕ → Parsed
parse_digits max_value acc [] = number acc
parse_digits max_value acc (c ∷ cs) =
    let rest = parse_digits max_value (acc * 10 + (c - b'0')) cs in
    if leb b'0' c && leb c b'9'
    then (if ltb max_value (acc * 10 + (c - b'0')) then bad pos_overflow else rest)
    else bad invalid_digit

-- The sign that `str::parse` passes over.
unfoldable pub parse_unsigned : ℕ → List ℕ → Parsed
parse_unsigned max_value [] = bad empty
parse_unsigned max_value (c ∷ []) =
    if c == b'+' then bad invalid_digit else parse_digits max_value 0 (c ∷ [])
parse_unsigned max_value (c ∷ d ∷ cs) =
    if c == b'+' then parse_digits max_value 0 (d ∷ cs) else parse_digits max_value 0 (c ∷ d ∷ cs)

abbrev pub or_bad_number : String → Parsed → Result ℕ
or_bad_number name (number n) = ok n
or_bad_number name (bad e) = err (cli (bad_number name e))

unfoldable pub parse_u16 : String → String → Result ℕ
parse_u16 name value = or_bad_number name (parse_unsigned (2 ^ 16 - 1) (codes value))

unfoldable pub parse_u64 : String → String → Result ℕ
parse_u64 name value = or_bad_number name (parse_unsigned (2 ^ 64 - 1) (codes value))

unfoldable pub parse_usize : String → String → Result ℕ
parse_usize name value = or_bad_number name (parse_unsigned (2 ^ 64 - 1) (codes value))
