-- ===== src/Cli/Read/Messages.antt =====
-- `messages list` and its sisters.
use webex_headless_messenger.Common.{
  ℕ, ◌≡◌, refl, String, false, Option, none, some, ◌∷◌, ok, if◌then◌else◌,
}
use webex_headless_messenger.Common.Text.{display_u64}
use webex_headless_messenger.Cli.{
  MessagesListArgs, MessagesDirectArgs, messages_list, messages_direct, messages_get,
  messages_delete,
}
use webex_headless_messenger.Cli.Cursor.{take_flag, take_option, required_next, next, strip_prefix}
use webex_headless_messenger.Cli.Options.{flag, option, required_value}
use webex_headless_messenger.Cli.Options.Loop.{
  Consumes, flag-Consumes, option-Consumes, unknown-Consumes, Reads, ◌then◌, Reads-flag,
  Reads-option, Reads-value, Reads-parse_options,
}
use webex_headless_messenger.Cli.Numbers.Digits.{parse_u16-display_u64}
use webex_headless_messenger.Cli.Words.{
  FitsMax, OneTarget, max_words, value_words, messages_list_words, messages_direct_words,
}
use webex_headless_messenger.Cli.Messages.{
  ListOptions, default_list, messages_list_step, default_direct, messages_direct_step,
  message_get_step, message_delete_step, messages_command, parse_messages, parse_messages_list,
  parse_messages_direct, check_direct,
}

messages_list_step-Consumes : Consumes messages_list_step
messages_list_step-Consumes =
    flag-Consumes _ _ _
      (option-Consumes _ _ _ (option-Consumes _ _ _ (option-Consumes _ _ _ (unknown-Consumes _))))

messages_direct_step-Consumes : Consumes messages_direct_step
messages_direct_step-Consumes =
    flag-Consumes _ _ _
      (option-Consumes _ _ _ (option-Consumes _ _ _ (option-Consumes _ _ _ (unknown-Consumes _))))

message_get_step-Consumes : Consumes message_get_step
message_get_step-Consumes = option-Consumes _ _ _ (unknown-Consumes _)

message_delete_step-Consumes : Consumes message_delete_step
message_delete_step-Consumes = option-Consumes _ _ _ (unknown-Consumes _)

-- The variables of the loop of `messages list`, once its words are read.
abbrev listed : MessagesListArgs → ListOptions
listed a = record {
  room_id = some a.room_id;
  parent_id = a.parent_id;
  max_items = a.max_items;
  all = a.all;
}

Reads-max_words :
    (o : ListOptions) (n : Option ℕ)
    → FitsMax n
    → Reads messages_list_step
        (record o { max_items = none })
        (max_words n)
        (record o { max_items = n })
unfolding flag option take_flag take_option required_next next strip_prefix
Reads-max_words o none h = record { reads = λ rest. refl }
Reads-max_words o (some n) h =
    Reads-value messages_list_step messages_list_step-Consumes "--max" (display_u64 n) _ _
      (λ rest. rw (parse_u16-display_u64 "--max" n h) refl)

Reads-messages_list_words :
    (a : MessagesListArgs)
    → FitsMax a.max_items
    → Reads messages_list_step default_list (messages_list_words a) (listed a)
unfolding flag option take_flag take_option required_next next strip_prefix messages_list_words
Reads-messages_list_words a h =
    Reads-value messages_list_step messages_list_step-Consumes "--room-id" a.room_id (default_list)
      (record default_list { room_id = some a.room_id }) (λ rest. refl)
    then Reads-option messages_list_step messages_list_step-Consumes "--parent-id"
        (λ o. record default_list { room_id = some a.room_id; parent_id = o }) (λ v rest. refl)
        a.parent_id
    then Reads-max_words (record (listed a) { all = false }) a.max_items h
    then Reads-flag messages_list_step messages_list_step-Consumes "--all"
        (λ b. record (listed a) { all = b }) (λ rest. refl) a.all

Reads-messages_direct_words :
    (a : MessagesDirectArgs) → Reads messages_direct_step default_direct (messages_direct_words a) a
unfolding flag option take_flag take_option required_next next strip_prefix messages_direct_words
Reads-messages_direct_words a =
    Reads-option messages_direct_step messages_direct_step-Consumes "--person-id"
      (λ o. record default_direct { person_id = o }) (λ v rest. refl) a.person_id
    then Reads-option messages_direct_step messages_direct_step-Consumes "--person-email"
        (λ o. record default_direct { person_id = a.person_id; person_email = o }) (λ v rest. refl)
        a.person_email
    then Reads-option messages_direct_step messages_direct_step-Consumes "--parent-id"
        (λ o. record default_direct {
          person_id = a.person_id;
          person_email = a.person_email;
          parent_id = o;
        })
        (λ v rest. refl) a.parent_id
    then Reads-flag messages_direct_step messages_direct_step-Consumes "--all"
        (λ o. record default_direct {
          person_id = a.person_id;
          person_email = a.person_email;
          parent_id = a.parent_id;
          all = o;
        })
        (λ rest. refl) a.all

pub parse_messages-list :
    (a : MessagesListArgs)
    → FitsMax a.max_items
    → parse_messages ("list" ∷ messages_list_words a) ≡ ok (messages_list a)
unfolding parse_messages messages_command parse_messages_list required_value required_next next
parse_messages-list a h = rw (Reads-parse_options (Reads-messages_list_words a h)) refl

check_direct-OneTarget :
    (id email : Option String) → OneTarget id email → check_direct id email ≡ ok tt
check_direct-OneTarget (some id) none h = refl
check_direct-OneTarget none (some email) h = refl
check_direct-OneTarget (some id) (some email) h = absurd h
check_direct-OneTarget none none h = absurd h

pub parse_messages-direct :
    (a : MessagesDirectArgs)
    → OneTarget a.person_id a.person_email
    → parse_messages ("direct" ∷ messages_direct_words a) ≡ ok (messages_direct a)
unfolding parse_messages messages_command parse_messages_direct required_next next
parse_messages-direct a h =
    rw
      (
        Reads-parse_options (Reads-messages_direct_words a),
        check_direct-OneTarget a.person_id a.person_email h,
      )
      refl

pub parse_messages-get :
    (id : String) → parse_messages ("get" ∷ value_words "--message-id" id) ≡ ok (messages_get id)
unfolding parse_messages messages_command required_value flag option take_flag take_option
    required_next next strip_prefix
parse_messages-get id =
    rw
      (Reads-parse_options (
        Reads-value message_get_step message_get_step-Consumes "--message-id" id none (some id)
          (λ rest. refl)))
      refl

pub parse_messages-delete :
    (id : String)
    → parse_messages ("delete" ∷ value_words "--message-id" id) ≡ ok (messages_delete id)
unfolding parse_messages messages_command required_value flag option take_flag take_option
    required_next next strip_prefix
parse_messages-delete id =
    rw
      (Reads-parse_options (
        Reads-value message_delete_step message_delete_step-Consumes "--message-id" id none
          (some id) (λ rest. refl)))
      refl
