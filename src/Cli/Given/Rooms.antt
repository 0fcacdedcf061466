-- ===== src/Cli/Given/Rooms.antt =====
-- What `rooms` gives.
use webex_headless_messenger.Common.{
  ◌≡◌, String, Bool-cases, str_eq, none, some, ok, inl, inr, >>=-eq-ok, err-ne-ok,
}
use webex_headless_messenger.Cli.{RoomsListArgs, Command, rooms_list, rooms_get, rooms_resolve}
use webex_headless_messenger.Cli.Cursor.{required_next}
use webex_headless_messenger.Cli.Options.{parse_options}
use webex_headless_messenger.Cli.Words.{FitsMax}
use webex_headless_messenger.Cli.Cursor.{ArgCursor}
use webex_headless_messenger.Cli.Options.Kept.{
  Keeps, unknown-Keeps, flag-Keeps, option-Keeps, setter-Keeps, parse_options-Keeps,
}
use webex_headless_messenger.Cli.Words.{IsGiven}
use webex_headless_messenger.Cli.Given.Built.{built, required-IsGiven, max_kept}
use webex_headless_messenger.Cli.Rooms.{
  default_rooms_list, rooms_list_step, rooms_get_step, default_rooms_resolve, rooms_resolve_step,
  rooms_command, parse_rooms,
}

abbrev FitsList : RoomsListArgs → Type 0
FitsList a = FitsMax a.max_items

rooms_list_step-Keeps : Keeps FitsList rooms_list_step
rooms_list_step-Keeps =
    flag-Keeps FitsList _ _ _ (λ a h. h)
      (option-Keeps FitsList _ _ _
        (λ v a b h e.
          max_kept FitsList (λ n. record a { max_items = some n }) v b (λ n fits. fits) e)
        (setter-Keeps FitsList _ _ _ (λ v a h. h)
          (setter-Keeps FitsList _ _ _ (λ v a h. h) (unknown-Keeps FitsList _))))

rooms_command-IsGiven :
    (p : String × ArgCursor) (cmd : Command) → rooms_command p ≡ ok cmd → IsGiven cmd
unfolding rooms_command
rooms_command-IsGiven (subcommand, c) cmd e = elim (Bool-cases (str_eq subcommand "list")) [
  | inl n0 ↦
      built IsGiven (parse_options rooms_list_step default_rooms_list c) rooms_list cmd
        (λ a read.
          parse_options-Keeps FitsList rooms_list_step rooms_list_step-Keeps default_rooms_list a c
            tt read)
        (rw n0 at e)
  | inr n0 ↦ elim (Bool-cases (str_eq subcommand "get")) [
    | inl n1 ↦
        required-IsGiven (parse_options rooms_get_step none c) "--room-id" rooms_get cmd (λ v. tt)
          (rw (n0, n1) at e)
    | inr n1 ↦ elim (Bool-cases (str_eq subcommand "resolve")) [
      | inl n2 ↦
          built IsGiven (parse_options rooms_resolve_step default_rooms_resolve c) rooms_resolve cmd
            (λ a read. tt) (rw (n0, n1, n2) at e)
      | inr n2 ↦ absurd (err-ne-ok (rw (n0, n1, n2) at e))
    ]
  ]
]

pub parse_rooms-IsGiven : (c : ArgCursor) (cmd : Command) → parse_rooms c ≡ ok cmd → IsGiven cmd
unfolding parse_rooms
parse_rooms-IsGiven c cmd e =
    let (p, _, rest) = >>=-eq-ok (required_next "rooms subcommand" c) rooms_command e in
    rooms_command-IsGiven p cmd rest
