-- ===== src/Cli/Read/Rooms.antt =====
-- `rooms list`, `rooms get` and `rooms resolve`.
use webex_headless_messenger.Common.{
  ℕ, ◌≡◌, refl, String, false, Option, none, some, ◌∷◌, ok, if◌then◌else◌,
}
use webex_headless_messenger.Common.Text.{display_u64}
use webex_headless_messenger.Cli.{
  RoomsListArgs, RoomsResolveArgs, rooms_list, rooms_get, rooms_resolve,
}
use webex_headless_messenger.Cli.Cursor.{take_flag, take_option, required_next, next, strip_prefix}
use webex_headless_messenger.Cli.Options.{flag, option, required_value}
use webex_headless_messenger.Cli.Options.Loop.{
  Consumes, flag-Consumes, option-Consumes, unknown-Consumes, Reads, ◌then◌, Reads-flag,
  Reads-option, Reads-value, Reads-parse_options,
}
use webex_headless_messenger.Cli.Numbers.Digits.{parse_u16-display_u64}
use webex_headless_messenger.Cli.Words.{
  FitsMax, max_words, value_words, rooms_list_words, rooms_resolve_words,
}
use webex_headless_messenger.Cli.Rooms.{
  default_rooms_list, rooms_list_step, rooms_get_step, default_rooms_resolve, rooms_resolve_step,
  rooms_command, parse_rooms,
}

rooms_list_step-Consumes : Consumes rooms_list_step
rooms_list_step-Consumes =
    flag-Consumes _ _ _
      (option-Consumes _ _ _ (option-Consumes _ _ _ (option-Consumes _ _ _ (unknown-Consumes _))))

rooms_get_step-Consumes : Consumes rooms_get_step
rooms_get_step-Consumes = option-Consumes _ _ _ (unknown-Consumes _)

rooms_resolve_step-Consumes : Consumes rooms_resolve_step
rooms_resolve_step-Consumes =
    option-Consumes _ _ _ (option-Consumes _ _ _ (option-Consumes _ _ _ (unknown-Consumes _)))

Reads-max_words :
    (n : Option ℕ)
    → FitsMax n
    → Reads rooms_list_step default_rooms_list
        (max_words n)
        (record default_rooms_list { max_items = n })
unfolding flag option take_flag take_option required_next next strip_prefix
Reads-max_words none h = record { reads = λ rest. refl }
Reads-max_words (some n) h =
    Reads-value rooms_list_step rooms_list_step-Consumes "--max" (display_u64 n) _ _
      (λ rest. rw (parse_u16-display_u64 "--max" n h) refl)

Reads-rooms_list_words :
    (a : RoomsListArgs)
    → FitsMax a.max_items
    → Reads rooms_list_step default_rooms_list (rooms_list_words a) a
unfolding flag option take_flag take_option required_next next strip_prefix rooms_list_words
Reads-rooms_list_words a h =
    Reads-max_words a.max_items h
    then Reads-option rooms_list_step rooms_list_step-Consumes "--type"
        (λ o. record default_rooms_list { max_items = a.max_items; room_type = o }) (λ v rest. refl)
        a.room_type
    then Reads-option rooms_list_step rooms_list_step-Consumes "--team-id"
        (λ o. record a { team_id = o; all = false }) (λ v rest. refl) a.team_id
    then Reads-flag rooms_list_step rooms_list_step-Consumes "--all" (λ b. record a { all = b })
        (λ rest. refl) a.all

Reads-rooms_resolve_words :
    (a : RoomsResolveArgs)
    → Reads rooms_resolve_step default_rooms_resolve (rooms_resolve_words a) a
unfolding flag option take_flag take_option required_next next strip_prefix rooms_resolve_words
Reads-rooms_resolve_words a =
    Reads-option rooms_resolve_step rooms_resolve_step-Consumes "--room-id"
      (λ o. record default_rooms_resolve { room_id = o }) (λ v rest. refl) a.room_id
    then Reads-option rooms_resolve_step rooms_resolve_step-Consumes "--link"
        (λ o. record default_rooms_resolve { room_id = a.room_id; link = o }) (λ v rest. refl)
        a.link
    then Reads-option rooms_resolve_step rooms_resolve_step-Consumes "--title"
        (λ o. record default_rooms_resolve { room_id = a.room_id; link = a.link; title = o })
        (λ v rest. refl) a.title

pub parse_rooms-list :
    (a : RoomsListArgs)
    → FitsMax a.max_items
    → parse_rooms ("list" ∷ rooms_list_words a) ≡ ok (rooms_list a)
unfolding parse_rooms rooms_command required_next next
parse_rooms-list a h = rw (Reads-parse_options (Reads-rooms_list_words a h)) refl

pub parse_rooms-get :
    (id : String) → parse_rooms ("get" ∷ value_words "--room-id" id) ≡ ok (rooms_get id)
unfolding parse_rooms rooms_command required_value flag option take_flag take_option required_next
    next strip_prefix
parse_rooms-get id =
    rw
      (Reads-parse_options (
        Reads-value rooms_get_step rooms_get_step-Consumes "--room-id" id none (some id)
          (λ rest. refl)))
      refl

pub parse_rooms-resolve :
    (a : RoomsResolveArgs) → parse_rooms ("resolve" ∷ rooms_resolve_words a) ≡ ok (rooms_resolve a)
unfolding parse_rooms rooms_command required_next next
parse_rooms-resolve a = rw (Reads-parse_options (Reads-rooms_resolve_words a)) refl
