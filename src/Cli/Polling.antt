-- ===== src/Cli/Polling.antt =====
-- src/bin/webex-headless.rs: `parse_poll` and `parse_sidecar`.
use webex_headless_messenger.Common.{
  ℕ, String, Bool, true, false, Option, none, some, str_eq, if◌then◌else◌, cli, unknown_subcommand,
  same_paths, Result, ok, err, ◌>>=◌,
}
use webex_headless_messenger.Cli.{SidecarReceiveArgs, Command, poll_messages, sidecar_receive}
use webex_headless_messenger.Cli.Cursor.{ArgCursor, required_next}
use webex_headless_messenger.Cli.Numbers.{parse_u16, parse_u64, parse_usize}
use webex_headless_messenger.Cli.Options.{
  Step, flag, option, unknown, parse_options, required_value,
}

-- The variables of the loop of `parse_poll`.
pub record PollOptions : Type 0 where
  pub room_id : Option String
  pub interval_seconds : ℕ
  pub page_size : ℕ
  pub emit_existing : Bool

abbrev pub default_poll : PollOptions
default_poll = record {
  room_id = none;
  interval_seconds = 15;
  page_size = 50;
  emit_existing = false;
}

abbrev pub poll_step : Step PollOptions
poll_step =
    flag "--emit-existing" (λ a. record a { emit_existing = true })
      (option "--room-id" (λ v a. ok (record a { room_id = some v }))
        (option "--interval-seconds"
          (λ v a. parse_u64 "--interval-seconds" v >>= λ n. ok (record a { interval_seconds = n }))
          (option "--max" (λ v a. parse_u16 "--max" v >>= λ n. ok (record a { page_size = n }))
            (unknown "poll messages"))))

unfoldable pub poll_command : String × ArgCursor → Result Command
poll_command (subcommand, c) =
    if str_eq subcommand "messages"
    then (do
      o ← parse_options poll_step default_poll c
      room_id ← required_value o.room_id "--room-id"
      ok (
          poll_messages (record {
            room_id = room_id;
            interval_seconds = o.interval_seconds;
            page_size = o.page_size;
            emit_existing = o.emit_existing;
          })))
    else err (cli (unknown_subcommand "poll" subcommand))

unfoldable pub parse_poll : ArgCursor → Result Command
parse_poll c = required_next "poll subcommand" c >>= poll_command

abbrev pub default_sidecar : SidecarReceiveArgs
default_sidecar = record {
  bind = "127.0.0.1:8787";
  path = "/webex/events";
  health_path = "/healthz";
  token = none;
  max_events = 0;
  allow_unauthenticated = false;
  allow_non_loopback = false;
}

abbrev pub sidecar_step : Step SidecarReceiveArgs
sidecar_step =
    flag "--allow-unauthenticated" (λ a. record a { allow_unauthenticated = true })
      (flag "--allow-non-loopback" (λ a. record a { allow_non_loopback = true })
        (option "--bind" (λ v a. ok (record a { bind = v }))
          (option "--path" (λ v a. ok (record a { path = v }))
            (option "--health-path" (λ v a. ok (record a { health_path = v }))
              (option "--token" (λ v a. ok (record a { token = some v }))
                (option "--max-events"
                  (λ v a. parse_usize "--max-events" v >>= λ n. ok (record a { max_events = n }))
                  (unknown "sidecar receive")))))))

abbrev pub checked_sidecar : SidecarReceiveArgs → Result Command
checked_sidecar args =
    if str_eq args.path args.health_path then err (cli same_paths) else ok (sidecar_receive args)

unfoldable pub sidecar_command : String × ArgCursor → Result Command
sidecar_command (subcommand, c) =
    if str_eq subcommand "receive"
    then (parse_options sidecar_step default_sidecar c >>= checked_sidecar)
    else err (cli (unknown_subcommand "sidecar" subcommand))

unfoldable pub parse_sidecar : ArgCursor → Result Command
parse_sidecar c = required_next "sidecar subcommand" c >>= sidecar_command
