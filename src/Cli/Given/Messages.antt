-- ===== src/Cli/Given/Messages.antt =====
-- What `messages` gives.
use webex_headless_messenger.Common.{
  ◌≡◌, String, Bool-cases, str_eq, Option, none, some, ok, ◌>>=◌, inl, inr, >>=-eq-ok, err-ne-ok,
}
use webex_headless_messenger.Cli.{
  MessagesListArgs, MessageBody, MessagesReplyArgs, Command, messages_list, messages_direct,
  messages_get, messages_send, messages_reply, messages_delete,
}
use webex_headless_messenger.Cli.Cursor.{required_next}
use webex_headless_messenger.Cli.Options.{required_value, parse_options}
use webex_headless_messenger.Cli.Words.{FitsMax, OneTarget}
use webex_headless_messenger.Cli.Cursor.{ArgCursor}
use webex_headless_messenger.Cli.Options.Kept.{
  Keeps, unknown-Keeps, flag-Keeps, option-Keeps, setter-Keeps, parse_options-Keeps,
}
use webex_headless_messenger.Cli.Words.{IsGiven}
use webex_headless_messenger.Cli.Given.Built.{built, required-IsGiven, max_kept}
use webex_headless_messenger.Cli.Messages.{
  ListOptions, default_list, messages_list_step, default_direct, messages_direct_step,
  message_get_step, message_delete_step, default_send, send_command, messages_send_step,
  default_reply, messages_reply_step, messages_command, parse_messages, parse_messages_list,
  parse_messages_direct, parse_messages_send, parse_messages_reply, message_target, message_body,
  check_direct, file_args,
}

abbrev FitsList : ListOptions → Type 0
FitsList o = FitsMax o.max_items

messages_list_step-Keeps : Keeps FitsList messages_list_step
messages_list_step-Keeps =
    flag-Keeps FitsList _ _ _ (λ a h. h)
      (setter-Keeps FitsList _ _ _ (λ v a h. h)
        (setter-Keeps FitsList _ _ _ (λ v a h. h)
          (option-Keeps FitsList _ _ _
            (λ v a b h e.
              max_kept FitsList (λ n. record a { max_items = some n }) v b (λ n fits. fits) e)
            (unknown-Keeps FitsList _))))

abbrev list_args : ListOptions → String → MessagesListArgs
list_args o room_id = record {
  room_id = room_id;
  parent_id = o.parent_id;
  max_items = o.max_items;
  all = o.all;
}

messages_list-IsGiven :
    (c : ArgCursor) (cmd : Command) → parse_messages_list c ≡ ok cmd → IsGiven cmd
unfolding parse_messages_list
messages_list-IsGiven c cmd e =
    let (o, read, rest) =
      >>=-eq-ok (parse_options messages_list_step default_list c)
        (λ o. required_value o.room_id "--room-id" >>= λ r. ok (messages_list (list_args o r))) e in
    built IsGiven (required_value o.room_id "--room-id") (λ r. messages_list (list_args o r)) cmd
      (λ r _.
        parse_options-Keeps FitsList messages_list_step messages_list_step-Keeps default_list o c tt
          read)
      rest

check_direct_ok : (id email : Option String) → check_direct id email ≡ ok tt → OneTarget id email
check_direct_ok (some id) none h = tt
check_direct_ok none (some email) h = tt
check_direct_ok (some id) (some email) h = absurd (err-ne-ok h)
check_direct_ok none none h = absurd (err-ne-ok h)

messages_direct-IsGiven :
    (c : ArgCursor) (cmd : Command) → parse_messages_direct c ≡ ok cmd → IsGiven cmd
unfolding parse_messages_direct
messages_direct-IsGiven c cmd e =
    let (a, _, rest) =
      >>=-eq-ok (parse_options messages_direct_step default_direct c)
        (λ a. check_direct a.person_id a.person_email >>= λ _. ok (messages_direct a)) e in
    built IsGiven (check_direct a.person_id a.person_email) (λ _. messages_direct a) cmd
      (λ _ checked. check_direct_ok a.person_id a.person_email checked) rest

messages_send-IsGiven :
    (c : ArgCursor) (cmd : Command) → parse_messages_send c ≡ ok cmd → IsGiven cmd
unfolding parse_messages_send
messages_send-IsGiven c cmd e =
    let (o, _, rest) = >>=-eq-ok (parse_options messages_send_step default_send c) send_command e in
    let (t, _, last) =
      >>=-eq-ok (message_target o.room_id o.to_person_email)
        (λ t. message_body o.text_value o.markdown_value >>= λ b. ok (
          messages_send (record {
            target = t;
            body = b;
            file = file_args o.file_path o.media_type o.file_name;
          })))
        rest in
    built IsGiven (message_body o.text_value o.markdown_value)
      (λ b.
        messages_send
          (record { target = t; body = b; file = file_args o.file_path o.media_type o.file_name }))
      cmd (λ _ _. tt) last

abbrev reply_args : String → String → MessageBody → MessagesReplyArgs
reply_args r p b = record { room_id = r; parent_id = p; body = b }

messages_reply-IsGiven :
    (c : ArgCursor) (cmd : Command) → parse_messages_reply c ≡ ok cmd → IsGiven cmd
unfolding parse_messages_reply
messages_reply-IsGiven c cmd e =
    let (o, _, with_room) =
      >>=-eq-ok (parse_options messages_reply_step default_reply c)
        (λ o. required_value o.room_id "--room-id" >>= λ r.
          required_value o.parent_id "--parent-id" >>= λ p.
          message_body o.text_value o.markdown_value >>= λ b.
          ok (messages_reply (reply_args r p b)))
        e in
    let (r, _, with_parent) =
      >>=-eq-ok (required_value o.room_id "--room-id")
        (λ r. required_value o.parent_id "--parent-id" >>= λ p.
          message_body o.text_value o.markdown_value >>= λ b.
          ok (messages_reply (reply_args r p b)))
        with_room in
    let (p, _, last) =
      >>=-eq-ok (required_value o.parent_id "--parent-id")
        (λ p. message_body o.text_value o.markdown_value >>= λ b.
          ok (messages_reply (reply_args r p b)))
        with_parent in
    built IsGiven (message_body o.text_value o.markdown_value)
      (λ b. messages_reply (reply_args r p b)) cmd (λ _ _. tt) last

messages_command-IsGiven :
    (p : String × ArgCursor) (cmd : Command) → messages_command p ≡ ok cmd → IsGiven cmd
unfolding messages_command
messages_command-IsGiven (subcommand, c) cmd e = elim (Bool-cases (str_eq subcommand "list")) [
  | inl n0 ↦ messages_list-IsGiven c cmd (rw n0 at e)
  | inr n0 ↦ elim (Bool-cases (str_eq subcommand "direct")) [
    | inl n1 ↦ messages_direct-IsGiven c cmd (rw (n0, n1) at e)
    | inr n1 ↦ elim (Bool-cases (str_eq subcommand "get")) [
      | inl n2 ↦
          required-IsGiven (parse_options message_get_step none c) "--message-id" messages_get cmd
            (λ v. tt) (rw (n0, n1, n2) at e)
      | inr n2 ↦ elim (Bool-cases (str_eq subcommand "send")) [
        | inl n3 ↦ messages_send-IsGiven c cmd (rw (n0, n1, n2, n3) at e)
        | inr n3 ↦ elim (Bool-cases (str_eq subcommand "reply")) [
          | inl n4 ↦ messages_reply-IsGiven c cmd (rw (n0, n1, n2, n3, n4) at e)
          | inr n4 ↦ elim (Bool-cases (str_eq subcommand "delete")) [
            | inl n5 ↦
                required-IsGiven (parse_options message_delete_step none c) "--message-id"
                  messages_delete cmd (λ v. tt) (rw (n0, n1, n2, n3, n4, n5) at e)
            | inr n5 ↦ absurd (err-ne-ok (rw (n0, n1, n2, n3, n4, n5) at e))
          ]
        ]
      ]
    ]
  ]
]

pub parse_messages-IsGiven :
    (c : ArgCursor) (cmd : Command) → parse_messages c ≡ ok cmd → IsGiven cmd
unfolding parse_messages
parse_messages-IsGiven c cmd e =
    let (p, _, rest) = >>=-eq-ok (required_next "messages subcommand" c) messages_command e in
    messages_command-IsGiven p cmd rest
