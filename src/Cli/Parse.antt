-- ===== src/Cli/Parse.antt =====
-- src/bin/webex-headless.rs: `Cli::parse`.
use webex_headless_messenger.Common.{
  ℕ, zero, suc, ◌||◌, some, [], ◌∷◌, length, str_eq, if◌then◌else◌, cli, unknown_command, Result,
  ok, err, ◌>>=◌,
}
use webex_headless_messenger.Cli.{Cli, GlobalOptions, Command, default_global, help, me}
use webex_headless_messenger.Cli.Cursor.{ArgCursor, finish, starts_with_dash}
use webex_headless_messenger.Cli.Options.{Step, option, unknown}
use webex_headless_messenger.Cli.Auth.{parse_auth}
use webex_headless_messenger.Cli.Rooms.{parse_rooms}
use webex_headless_messenger.Cli.Messages.{parse_messages}
use webex_headless_messenger.Cli.Polling.{parse_poll, parse_sidecar}

-- The options before the command.
abbrev pub global_step : Step GlobalOptions
global_step =
    option "--access-token" (λ v a. ok (record a { access_token = some v }))
      (option "--token-file" (λ v a. ok (record a { token_file = some v }))
        (option "--client-id" (λ v a. ok (record a { client_id = some v }))
          (option "--client-secret" (λ v a. ok (record a { client_secret = some v }))
            (option "--client-secret-file" (λ v a. ok (record a { client_secret_file = some v }))
              (unknown "global")))))

-- The `match` on the command.
unfoldable pub parse_command : ArgCursor → Result Command
unfolding finish
parse_command [] = ok help
parse_command (command ∷ c) =
    if str_eq command "auth"
    then parse_auth c
    else if str_eq command "me"
    then (finish c >>= λ _. ok me)
    else if str_eq command "rooms"
    then parse_rooms c
    else if str_eq command "messages"
    then parse_messages c
    else if str_eq command "poll"
    then parse_poll c
    else if str_eq command "sidecar"
    then parse_sidecar c
    else if str_eq command "--help" || str_eq command "-h"
    then ok help
    else err (cli (unknown_command command))

abbrev pub with_command : GlobalOptions → Command → Result Cli
with_command g command = ok (record { global_options = g; command = command })

-- The `while` loop and what follows it, on as many rounds as there are arguments: a round that does not
-- end it takes one at least.
unfoldable pub global_loop : ℕ → GlobalOptions → ArgCursor → Result Cli
unfolding starts_with_dash
global_loop rounds g [] = with_command g help
global_loop zero g (arg ∷ c) = with_command g help
global_loop (suc rounds) g (arg ∷ c) =
    if starts_with_dash arg
    then (if str_eq arg "--help" || str_eq arg "-h"
        then with_command g help
        else (global_step g (arg ∷ c) >>= λ (g', c'). global_loop rounds g' c'))
    else (parse_command (arg ∷ c) >>= with_command g)

-- `Cli::parse`.
unfoldable pub parse : ArgCursor → Result Cli
unfolding global_loop
parse args = global_loop (length args) default_global args
