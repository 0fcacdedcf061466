-- ===== src/Cli/Messages.antt =====
-- src/bin/webex-headless.rs: `parse_messages`, and the requests that its commands make.
use webex_headless_messenger.Common.{
  ℕ, String, Bool, true, false, Option, none, some, str_eq, if◌then◌else◌, cli, unknown_subcommand,
  no_target, one_target_only, one_body_only, no_body, Result, ok, err, ◌>>=◌,
}
use webex_headless_messenger.Cli.{
  MessagesDirectArgs, MessageTarget, room, person_email, MessageBody, text, markdown, FileArgs,
  Command, messages_list, messages_direct, messages_get, messages_send, messages_reply,
  messages_delete,
}
use webex_headless_messenger.Cli.Cursor.{ArgCursor, required_next}
use webex_headless_messenger.Cli.Numbers.{parse_u16}
use webex_headless_messenger.Cli.Options.{
  Step, flag, option, unknown, parse_options, required_value,
}

-- The variables of the loop of `messages list`.
pub record ListOptions : Type 0 where
  pub room_id : Option String
  pub parent_id : Option String
  pub max_items : Option ℕ
  pub all : Bool

abbrev pub default_list : ListOptions
default_list = record { room_id = none; parent_id = none; max_items = none; all = false }

abbrev pub messages_list_step : Step ListOptions
messages_list_step =
    flag "--all" (λ a. record a { all = true })
      (option "--room-id" (λ v a. ok (record a { room_id = some v }))
        (option "--parent-id" (λ v a. ok (record a { parent_id = some v }))
          (option "--max" (λ v a. parse_u16 "--max" v >>= λ n. ok (record a { max_items = some n }))
            (unknown "messages list"))))

unfoldable pub parse_messages_list : ArgCursor → Result Command
parse_messages_list c = do
  o ← parse_options messages_list_step default_list c
  room_id ← required_value o.room_id "--room-id"
  ok (
      messages_list (record {
        room_id = room_id;
        parent_id = o.parent_id;
        max_items = o.max_items;
        all = o.all;
      }))

-- `MessagesDirectArgs::default`.
abbrev pub default_direct : MessagesDirectArgs
default_direct = record { person_id = none; person_email = none; parent_id = none; all = false }

abbrev pub messages_direct_step : Step MessagesDirectArgs
messages_direct_step =
    flag "--all" (λ a. record a { all = true })
      (option "--person-id" (λ v a. ok (record a { person_id = some v }))
        (option "--person-email" (λ v a. ok (record a { person_email = some v }))
          (option "--parent-id" (λ v a. ok (record a { parent_id = some v }))
            (unknown "messages direct"))))

-- The `match` on the targets that are given.
abbrev pub check_direct : Option String → Option String → Result (Unit {0})
check_direct none none = err (cli no_target)
check_direct (some id) (some email) = err (cli one_target_only)
check_direct (some id) none = ok tt
check_direct none (some email) = ok tt

unfoldable pub parse_messages_direct : ArgCursor → Result Command
parse_messages_direct c = do
  args ← parse_options messages_direct_step default_direct c
  _ ← check_direct args.person_id args.person_email
  ok (messages_direct args)

abbrev pub message_get_step : Step (Option String)
message_get_step = option "--message-id" (λ v a. ok (some v)) (unknown "messages get")

abbrev pub message_delete_step : Step (Option String)
message_delete_step = option "--message-id" (λ v a. ok (some v)) (unknown "messages delete")

-- The variables of the loop of `parse_messages_send`.
pub record SendOptions : Type 0 where
  pub room_id : Option String
  pub to_person_email : Option String
  pub text_value : Option String
  pub markdown_value : Option String
  pub file_path : Option String
  pub media_type : Option String
  pub file_name : Option String

abbrev pub default_send : SendOptions
default_send = record {
  room_id = none;
  to_person_email = none;
  text_value = none;
  markdown_value = none;
  file_path = none;
  media_type = none;
  file_name = none;
}

abbrev pub messages_send_step : Step SendOptions
messages_send_step =
    option "--room-id" (λ v a. ok (record a { room_id = some v }))
      (option "--to-person-email" (λ v a. ok (record a { to_person_email = some v }))
        (option "--text" (λ v a. ok (record a { text_value = some v }))
          (option "--markdown" (λ v a. ok (record a { markdown_value = some v }))
            (option "--file" (λ v a. ok (record a { file_path = some v }))
              (option "--media-type" (λ v a. ok (record a { media_type = some v }))
                (option "--file-name" (λ v a. ok (record a { file_name = some v }))
                  (unknown "messages send")))))))

abbrev pub message_target : Option String → Option String → Result MessageTarget
message_target (some room_id) none = ok (room room_id)
message_target none (some email) = ok (person_email email)
message_target (some room_id) (some email) = err (cli one_target_only)
message_target none none = err (cli no_target)

abbrev pub message_body : Option String → Option String → Result MessageBody
message_body (some t) none = ok (text t)
message_body none (some m) = ok (markdown m)
message_body (some t) (some m) = err (cli one_body_only)
message_body none none = err (cli no_body)

abbrev pub file_args : Option String → Option String → Option String → Option FileArgs
file_args none media_type file_name = none
file_args (some path) media_type file_name =
    some (record { path = path; media_type = media_type; file_name = file_name })

-- What `parse_messages_send` makes of its variables.
abbrev pub send_command : SendOptions → Result Command
send_command o = do
  target ← message_target o.room_id o.to_person_email
  body ← message_body o.text_value o.markdown_value
  ok (
      messages_send (record {
        target = target;
        body = body;
        file = file_args o.file_path o.media_type o.file_name;
      }))

unfoldable pub parse_messages_send : ArgCursor → Result Command
parse_messages_send c = parse_options messages_send_step default_send c >>= send_command

-- The variables of the loop of `parse_messages_reply`.
pub record ReplyOptions : Type 0 where
  pub room_id : Option String
  pub parent_id : Option String
  pub text_value : Option String
  pub markdown_value : Option String

abbrev pub default_reply : ReplyOptions
default_reply = record {
  room_id = none;
  parent_id = none;
  text_value = none;
  markdown_value = none;
}

abbrev pub messages_reply_step : Step ReplyOptions
messages_reply_step =
    option "--room-id" (λ v a. ok (record a { room_id = some v }))
      (option "--parent-id" (λ v a. ok (record a { parent_id = some v }))
        (option "--text" (λ v a. ok (record a { text_value = some v }))
          (option "--markdown" (λ v a. ok (record a { markdown_value = some v }))
            (unknown "messages reply"))))

unfoldable pub parse_messages_reply : ArgCursor → Result Command
parse_messages_reply c = do
  o ← parse_options messages_reply_step default_reply c
  room_id ← required_value o.room_id "--room-id"
  parent_id ← required_value o.parent_id "--parent-id"
  body ← message_body o.text_value o.markdown_value
  ok (messages_reply (record { room_id = room_id; parent_id = parent_id; body = body }))

unfoldable pub messages_command : String × ArgCursor → Result Command
messages_command (subcommand, c) =
    if str_eq subcommand "list"
    then parse_messages_list c
    else if str_eq subcommand "direct"
    then parse_messages_direct c
    else if str_eq subcommand "get"
    then (do
      message_id ← parse_options message_get_step none c
      message_id ← required_value message_id "--message-id"
      ok (messages_get message_id))
    else if str_eq subcommand "send"
    then parse_messages_send c
    else if str_eq subcommand "reply"
    then parse_messages_reply c
    else if str_eq subcommand "delete"
    then (do
      message_id ← parse_options message_delete_step none c
      message_id ← required_value message_id "--message-id"
      ok (messages_delete message_id))
    else err (cli (unknown_subcommand "messages" subcommand))

unfoldable pub parse_messages : ArgCursor → Result Command
parse_messages c = required_next "messages subcommand" c >>= messages_command
