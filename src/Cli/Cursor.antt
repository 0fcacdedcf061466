-- ===== src/Cli/Cursor.antt =====
-- src/bin/webex-headless.rs: `ArgCursor`. The cursor is the list of the arguments from `index` on.
use Prim.Native.Char.{code}
use Prim.Native.String.{◌++◌}
use webex_headless_messenger.Common.{
  String, Bool, true, false, Option, none, some, List, [], ◌∷◌, str_eq, ◌==◌, if◌then◌else◌, cli,
  missing, unexpected_argument, Result, ok, err, ◌>>=◌,
}

abbrev pub ArgCursor : Type 0
ArgCursor = List String

-- `str::strip_prefix`. `String` has its own `[]` and `∷`.
unfoldable pub strip_prefix : String → String → Option String
strip_prefix String.[] s = some s
strip_prefix (String.◌∷◌ c p) String.[] = none
strip_prefix (String.◌∷◌ c p) (String.◌∷◌ d s) =
    let rest = strip_prefix p s in if code c == code d then rest else none

-- `str::starts_with`, of a character.
unfoldable pub starts_with_dash : String → Bool
starts_with_dash String.[] = false
starts_with_dash (String.◌∷◌ c s) = code c == b'-'

unfoldable pub next : ArgCursor → Option (String × ArgCursor)
next [] = none
next (arg ∷ rest) = some (arg, rest)

unfoldable pub required_next : String → ArgCursor → Result (String × ArgCursor)
unfolding next
required_next name c = elim (next c) [ none ↦ err (cli (missing name)) | some taken ↦ ok taken ]

unfoldable pub take_flag : String → ArgCursor → Bool × ArgCursor
take_flag name [] = (false, [])
take_flag name (arg ∷ rest) = if str_eq arg name then (true, rest) else (false, arg ∷ rest)

abbrev pub some_first : String × ArgCursor → Result (Option String × ArgCursor)
some_first (value, c) = ok (some value, c)

unfoldable pub take_option : String → ArgCursor → Result (Option String × ArgCursor)
unfolding required_next strip_prefix
take_option name [] = ok (none, [])
take_option name (arg ∷ rest) =
    if str_eq arg name
    then required_next name rest >>= some_first
    else elim (strip_prefix (name ++ "=") arg) [
      | some value ↦ ok (some value, rest)
      | none ↦ ok (none, arg ∷ rest)
    ]

-- `finish`.
unfoldable pub finish : ArgCursor → Result (Unit {0})
finish [] = ok tt
finish (arg ∷ rest) = err (cli (unexpected_argument arg))
