-- ===== src/Cli/Auth.antt =====
-- src/bin/webex-headless.rs: `parse_auth`, `parse_scopes` and the choice of credentials.
use webex_headless_messenger.Common.{
  ℕ, String, Bool, true, false, ◌||◌, Option, none, some, List, [], ◌∷◌, ◌++◌, ◌==◌, str_eq,
  if◌then◌else◌, cli, unknown_subcommand, two_auth_sources, no_auth_source, Result, ok, err, ◌>>=◌,
}
use webex_headless_messenger.Common.Text.{is_blank}
use webex_headless_messenger.Cli.{
  AuthDeviceArgs, AuthRefreshArgs, GlobalOptions, Command, auth_device, auth_refresh,
}
use webex_headless_messenger.Cli.Cursor.{ArgCursor, required_next}
use webex_headless_messenger.Cli.Options.{Step, flag, option, unknown, parse_options}
use Prim.Native.Char.{Char, code}

-- `ch.is_ascii_whitespace() || ch == ','`.
unfoldable pub is_separator : ℕ → Bool
is_separator c = c == 32 || c == 9 || c == 10 || c == 12 || c == 13 || c == b','

-- A character in front of the first part.
abbrev pub cons_part : Char → List String → List String
cons_part c [] = String.◌∷◌ c String.[] ∷ []
cons_part c (part ∷ parts) = String.◌∷◌ c part ∷ parts

-- `str::split`: there is always a part.
unfoldable pub split_separators : String → List String
unfolding is_separator
split_separators String.[] = String.[] ∷ []
split_separators (String.◌∷◌ c s) =
    let rest = split_separators s in
    if is_separator (code c) then String.[] ∷ rest else cons_part c rest

-- `str::trim` of a text, over its characters.
unfoldable pub trim_text_start : String → String
trim_text_start String.[] = String.[]
trim_text_start (String.◌∷◌ c s) =
    let rest = trim_text_start s in
    if is_blank (String.◌∷◌ c String.[]) then rest else String.◌∷◌ c s

-- Without the blank characters at the end.
unfoldable pub trim_text_end : String → String
trim_text_end String.[] = String.[]
trim_text_end (String.◌∷◌ c s) =
    let rest = trim_text_end s in if is_blank (String.◌∷◌ c s) then String.[] else String.◌∷◌ c rest

abbrev pub is_empty_text : String → Bool
is_empty_text String.[] = true
is_empty_text (String.◌∷◌ c s) = false

-- The `map` and the `filter`.
unfoldable pub trimmed_parts : List String → List String
trimmed_parts [] = []
trimmed_parts (part ∷ parts) =
    let rest = trimmed_parts parts in
    let scope = trim_text_end (trim_text_start part) in
    if is_empty_text scope then rest else scope ∷ rest

unfoldable pub parse_scopes : String → List String
unfolding split_separators trimmed_parts
parse_scopes value = trimmed_parts (split_separators value)

-- `AuthDeviceArgs::default`.
abbrev pub default_auth_device : AuthDeviceArgs
default_auth_device = record {
  client_id = none;
  client_secret = none;
  client_secret_file = none;
  token_file = none;
  access_token_file = none;
  access_token_file_group_readable = false;
  scopes = [];
  stdout_token = false;
}

abbrev pub add_scopes : String → AuthDeviceArgs → Result AuthDeviceArgs
add_scopes v a = ok (record a { scopes = a.scopes ++ parse_scopes v })

-- The body of the loop of `parse_auth_device`.
abbrev pub auth_device_step : Step AuthDeviceArgs
auth_device_step =
    flag "--stdout-token" (λ a. record a { stdout_token = true })
      (option "--client-id" (λ v a. ok (record a { client_id = some v }))
        (option "--client-secret" (λ v a. ok (record a { client_secret = some v }))
          (option "--client-secret-file" (λ v a. ok (record a { client_secret_file = some v }))
            (option "--token-file" (λ v a. ok (record a { token_file = some v }))
              (option "--access-token-file" (λ v a. ok (record a { access_token_file = some v }))
                (flag "--access-token-file-group-readable"
                  (λ a. record a { access_token_file_group_readable = true })
                  (option "--scopes" add_scopes
                    (option "--scope" add_scopes (unknown "auth device")))))))))

unfoldable pub parse_auth_device : ArgCursor → Result Command
parse_auth_device c =
    parse_options auth_device_step default_auth_device c >>= λ args. ok (auth_device args)

-- `AuthRefreshArgs::default`.
abbrev pub default_auth_refresh : AuthRefreshArgs
default_auth_refresh = record {
  client_id = none;
  client_secret = none;
  client_secret_file = none;
  token_file = none;
  access_token_file = none;
  access_token_file_group_readable = false;
}

-- The body of the loop of `parse_auth_refresh`.
abbrev pub auth_refresh_step : Step AuthRefreshArgs
auth_refresh_step =
    option "--client-id" (λ v a. ok (record a { client_id = some v }))
      (option "--client-secret" (λ v a. ok (record a { client_secret = some v }))
        (option "--client-secret-file" (λ v a. ok (record a { client_secret_file = some v }))
          (option "--token-file" (λ v a. ok (record a { token_file = some v }))
            (option "--access-token-file" (λ v a. ok (record a { access_token_file = some v }))
              (flag "--access-token-file-group-readable"
                (λ a. record a { access_token_file_group_readable = true })
                (unknown "auth refresh"))))))

unfoldable pub parse_auth_refresh : ArgCursor → Result Command
parse_auth_refresh c =
    parse_options auth_refresh_step default_auth_refresh c >>= λ args. ok (auth_refresh args)

unfoldable pub auth_command : String × ArgCursor → Result Command
auth_command (subcommand, c) =
    if str_eq subcommand "device"
    then parse_auth_device c
    else if str_eq subcommand "refresh"
    then parse_auth_refresh c
    else err (cli (unknown_subcommand "auth" subcommand))

unfoldable pub parse_auth : ArgCursor → Result Command
parse_auth c = required_next "auth subcommand" c >>= auth_command

pub data AuthSource : Type 0 where
  access_token token_file : String → AuthSource

-- `filter(|value| !value.trim().is_empty())`, and the `filter` on paths.
abbrev pub not_blank : Option String → Option String
not_blank none = none
not_blank (some v) = if is_blank v then none else some v

abbrev pub not_empty : Option String → Option String
not_empty none = none
not_empty (some v) = if is_empty_text v then none else some v

abbrev env_source : Option String → Option String → Result AuthSource
env_source (some path) token = ok (token_file path)
env_source none (some token) = ok (access_token token)
env_source none none = err (cli no_auth_source)

unfoldable pub auth_source_from_parts :
    Option String → Option String → Option String → Option String → Result AuthSource
auth_source_from_parts explicit_access_token explicit_token_file env_token_file env_access_token =
    elim (not_blank explicit_access_token) [
      | some token ↦ elim (not_empty explicit_token_file) [
        | some path ↦ err (cli two_auth_sources)
        | none ↦ ok (access_token token)
      ]
      | none ↦ elim (not_empty explicit_token_file) [
        | some path ↦ ok (token_file path)
        | none ↦ env_source (not_empty env_token_file) (not_blank env_access_token)
      ]
    ]

-- `resolve_auth_source`; the environment's two variables are arguments.
unfoldable pub resolve_auth_source :
    GlobalOptions → Option String → Option String → Result AuthSource
resolve_auth_source g env_token_file env_access_token =
    auth_source_from_parts g.access_token g.token_file env_token_file env_access_token
