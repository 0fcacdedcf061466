-- ===== src/Cli/Numbers/Range.antt =====
-- The numbers that are read fit their type.
use webex_headless_messenger.Common.{
  ℕ, ◌+◌, ◌-◌, ◌*◌, ◌^◌, ◌≤◌, ◌<◌, ◌≡◌, String, [], ◌∷◌, List, arith, ok, ok-injective, ap,
}
use webex_headless_messenger.Common.Text.{codes}
use webex_headless_messenger.Cli.Numbers.{
  number, bad, parse_digits, parse_unsigned, parse_u16, parse_u64, parse_usize, or_bad_number,
  Parsed,
}

parse_digits_bound :
    (max_value acc n : ℕ) (cs : List ℕ)
    → acc ≤ max_value
    → parse_digits max_value acc cs ≡ number n
    → n ≤ max_value
unfolding parse_digits
parse_digits_bound max_value acc n [] h e = ground arith
parse_digits_bound max_value acc n (c ∷ cs) h e =
    let rest = parse_digits_bound max_value (acc * 10 + (c - 48)) n cs in ground arith

parse_unsigned_bound :
    (max_value n : ℕ) (cs : List ℕ) → parse_unsigned max_value cs ≡ number n → n ≤ max_value
unfolding parse_unsigned
parse_unsigned_bound max_value n [] e = cc
parse_unsigned_bound max_value n (c ∷ []) e =
    let rest = parse_digits_bound max_value 0 n (c ∷ []) (omega arith) in ground arith
parse_unsigned_bound max_value n (c ∷ d ∷ cs) e =
    let some_digits = parse_digits_bound max_value 0 n (d ∷ cs) (omega arith) in
    let all_digits = parse_digits_bound max_value 0 n (c ∷ d ∷ cs) (omega arith) in ground arith

or_bad_number_ok : (name : String) (p : Parsed) (n : ℕ) → or_bad_number name p ≡ ok n → p ≡ number n
or_bad_number_ok name (number m) n e = ap number (ok-injective e)
or_bad_number_ok name (bad b) n e = cc

pub parse_u16_bound : (name value : String) (n : ℕ) → parse_u16 name value ≡ ok n → n < 2 ^ 16
unfolding parse_u16
parse_u16_bound name value n e =
    let fits = parse_unsigned_bound (2 ^ 16 - 1) n (codes value) (or_bad_number_ok name _ n e) in
    omega arith

pub parse_u64_bound : (name value : String) (n : ℕ) → parse_u64 name value ≡ ok n → n < 2 ^ 64
unfolding parse_u64
parse_u64_bound name value n e =
    let fits = parse_unsigned_bound (2 ^ 64 - 1) n (codes value) (or_bad_number_ok name _ n e) in
    omega arith

pub parse_usize_bound : (name value : String) (n : ℕ) → parse_usize name value ≡ ok n → n < 2 ^ 64
unfolding parse_usize
parse_usize_bound name value n e =
    let fits = parse_unsigned_bound (2 ^ 64 - 1) n (codes value) (or_bad_number_ok name _ n e) in
    omega arith
