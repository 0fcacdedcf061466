-- ===== src/Cli/Options.antt =====
-- src/bin/webex-headless.rs: the `while let Some(arg) = cursor.peek()` loops over options. The `if` chain
-- of a loop's body is a step: what it does with the arguments that are left.
pub mod Loop
pub mod Kept
use webex_headless_messenger.Common.{
  ℕ, zero, suc, String, Bool, Option, none, some, List, [], ◌∷◌, length, if◌then◌else◌, Error, cli,
  unknown_option, missing, required, Result, ok, err, ◌>>=◌,
}
use webex_headless_messenger.Cli.Cursor.{ArgCursor, take_flag, take_option}

abbrev pub Step : Type 0 → Type 0
Step A = A → ArgCursor → Result (A × ArgCursor)

-- `if cursor.take_flag(name) { set } else …`.
unfoldable pub flag : {A : Type 0} → String → (A → A) → Step A → Step A
unfolding take_flag
flag name set otherwise a c =
    let (taken, c') = take_flag name c in if taken then ok (set a, c') else otherwise a c'

abbrev pub with_rest : {A : Type 0} → ArgCursor → A → Result (A × ArgCursor)
with_rest c a = ok (a, c)

abbrev pub on_value :
    {A : Type 0}
    → (String → A → Result A)
    → Step A
    → A
    → Option String × ArgCursor
    → Result (A × ArgCursor)
on_value set otherwise a (some value, c) = set value a >>= with_rest c
on_value set otherwise a (none, c) = otherwise a c

-- `if let Some(value) = cursor.take_option(name)? { set } else …`.
unfoldable pub option : {A : Type 0} → String → (String → A → Result A) → Step A → Step A
unfolding take_option
option name set otherwise a c = take_option name c >>= on_value set otherwise a

-- `else { return Err(..) }`.
unfoldable pub unknown : {A : Type 0} → String → Step A
unknown command a [] = ok (a, [])
unknown command a (arg ∷ rest) = err (cli (unknown_option command arg))

-- The loop, on as many rounds as there are arguments: a step takes one at least.
unfoldable pub options_loop : {A : Type 0} → ℕ → Step A → A → ArgCursor → Result A
options_loop rounds step a [] = ok a
options_loop zero step a (arg ∷ rest) = ok a
options_loop (suc rounds) step a (arg ∷ rest) =
    step a (arg ∷ rest) >>= λ (a', c). options_loop rounds step a' c

unfoldable pub parse_options : {A : Type 0} → Step A → A → ArgCursor → Result A
parse_options step a c = options_loop (length c) step a c

-- `required_value`.
unfoldable pub required_value : Option String → String → Result String
required_value none name = err (cli (required name))
required_value (some value) name = ok value
