-- ===== src/Cli/Rooms.antt =====
-- src/bin/webex-headless.rs: `parse_rooms`.
use webex_headless_messenger.Common.{
  String, true, false, Option, none, some, str_eq, if◌then◌else◌, cli, unknown_subcommand, Result,
  ok, err, ◌>>=◌,
}
use webex_headless_messenger.Cli.{
  RoomsListArgs, RoomsResolveArgs, Command, rooms_list, rooms_get, rooms_resolve,
}
use webex_headless_messenger.Cli.Cursor.{ArgCursor, required_next}
use webex_headless_messenger.Cli.Numbers.{parse_u16}
use webex_headless_messenger.Cli.Options.{
  Step, flag, option, unknown, parse_options, required_value,
}

-- `RoomsListArgs::default`.
abbrev pub default_rooms_list : RoomsListArgs
default_rooms_list = record { max_items = none; room_type = none; team_id = none; all = false }

abbrev pub rooms_list_step : Step RoomsListArgs
rooms_list_step =
    flag "--all" (λ a. record a { all = true })
      (option "--max" (λ v a. parse_u16 "--max" v >>= λ n. ok (record a { max_items = some n }))
        (option "--type" (λ v a. ok (record a { room_type = some v }))
          (option "--team-id" (λ v a. ok (record a { team_id = some v })) (unknown "rooms list"))))

abbrev pub rooms_get_step : Step (Option String)
rooms_get_step = option "--room-id" (λ v a. ok (some v)) (unknown "rooms get")

-- `RoomsResolveArgs::default`.
abbrev pub default_rooms_resolve : RoomsResolveArgs
default_rooms_resolve = record { room_id = none; link = none; title = none }

abbrev pub rooms_resolve_step : Step RoomsResolveArgs
rooms_resolve_step =
    option "--room-id" (λ v a. ok (record a { room_id = some v }))
      (option "--link" (λ v a. ok (record a { link = some v }))
        (option "--title" (λ v a. ok (record a { title = some v })) (unknown "rooms resolve")))

unfoldable pub rooms_command : String × ArgCursor → Result Command
rooms_command (subcommand, c) =
    if str_eq subcommand "list"
    then (parse_options rooms_list_step default_rooms_list c >>= λ args. ok (rooms_list args))
    else if str_eq subcommand "get"
    then (do
      room_id ← parse_options rooms_get_step none c
      room_id ← required_value room_id "--room-id"
      ok (rooms_get room_id))
    else if str_eq subcommand "resolve"
    then (parse_options rooms_resolve_step default_rooms_resolve c >>= λ args.
        ok (rooms_resolve args))
    else err (cli (unknown_subcommand "rooms" subcommand))

unfoldable pub parse_rooms : ArgCursor → Result Command
parse_rooms c = required_next "rooms subcommand" c >>= rooms_command
