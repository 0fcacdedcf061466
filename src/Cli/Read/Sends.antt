-- ===== src/Cli/Read/Sends.antt =====
-- `messages send` and `messages reply`.
use webex_headless_messenger.Common.{◌≡◌, refl, String, Option, none, some, ◌∷◌, ok, if◌then◌else◌}
use webex_headless_messenger.Cli.{
  MessageTarget, room, person_email, MessageBody, text, markdown, FileArgs, MessagesSendArgs,
  MessagesReplyArgs, messages_send, messages_reply,
}
use webex_headless_messenger.Cli.Cursor.{take_flag, take_option, required_next, next, strip_prefix}
use webex_headless_messenger.Cli.Options.{flag, option, required_value}
use webex_headless_messenger.Cli.Options.Loop.{
  Consumes, option-Consumes, unknown-Consumes, Reads, ◌then◌, Reads-option, Reads-value,
  Reads-parse_options,
}
use webex_headless_messenger.Cli.Words.{
  target_words, body_words, file_words, messages_send_words, messages_reply_words,
}
use webex_headless_messenger.Cli.Messages.{
  SendOptions, ReplyOptions, default_send, messages_send_step, default_reply, messages_reply_step,
  messages_command, parse_messages, parse_messages_send, parse_messages_reply, message_target,
  message_body, send_command,
}

messages_send_step-Consumes : Consumes messages_send_step
messages_send_step-Consumes = option-Consumes _ _ _ (
    option-Consumes _ _ _ (
      option-Consumes _ _ _ (
        option-Consumes _ _ _ (
          option-Consumes _ _ _
            (option-Consumes _ _ _ (option-Consumes _ _ _ (unknown-Consumes _)))))))

messages_reply_step-Consumes : Consumes messages_reply_step
messages_reply_step-Consumes =
    option-Consumes _ _ _
      (option-Consumes _ _ _ (option-Consumes _ _ _ (option-Consumes _ _ _ (unknown-Consumes _))))

-- What a target, a body and a file are in the variables of the loop.
abbrev room_of : MessageTarget → Option String
room_of (room id) = some id
room_of (person_email email) = none

abbrev email_of : MessageTarget → Option String
email_of (room id) = none
email_of (person_email email) = some email

abbrev text_of : MessageBody → Option String
text_of (text t) = some t
text_of (markdown m) = none

abbrev markdown_of : MessageBody → Option String
markdown_of (text t) = none
markdown_of (markdown m) = some m

abbrev targeted : MessageTarget → SendOptions
targeted t = record default_send { room_id = room_of t; to_person_email = email_of t }

abbrev filled : MessageTarget → MessageBody → SendOptions
filled t b = record (targeted t) { text_value = text_of b; markdown_value = markdown_of b }

abbrev sent_options : MessageTarget → MessageBody → Option FileArgs → SendOptions
sent_options t b none = filled t b
sent_options t b (some f) = record (filled t b) {
  file_path = some f.path;
  media_type = f.media_type;
  file_name = f.file_name;
}

Reads-target_words :
    (t : MessageTarget) → Reads messages_send_step default_send (target_words t) (targeted t)
unfolding flag option take_flag take_option required_next next strip_prefix
Reads-target_words (room id) =
    Reads-value messages_send_step messages_send_step-Consumes "--room-id" id _ _ (λ rest. refl)
Reads-target_words (person_email email) =
    Reads-value messages_send_step messages_send_step-Consumes "--to-person-email" email _ _
      (λ rest. refl)

Reads-body_words :
    (t : MessageTarget) (b : MessageBody)
    → Reads messages_send_step (targeted t) (body_words b) (filled t b)
unfolding flag option take_flag take_option required_next next strip_prefix
Reads-body_words o (text t) =
    Reads-value messages_send_step messages_send_step-Consumes "--text" t _ _ (λ rest. refl)
Reads-body_words o (markdown m) =
    Reads-value messages_send_step messages_send_step-Consumes "--markdown" m _ _ (λ rest. refl)

Reads-file_words :
    (t : MessageTarget) (b : MessageBody) (f : Option FileArgs)
    → Reads messages_send_step (filled t b) (file_words f) (sent_options t b f)
unfolding flag option take_flag take_option required_next next strip_prefix
Reads-file_words t b none = record { reads = λ rest. refl }
Reads-file_words t b (some f) =
    Reads-value messages_send_step messages_send_step-Consumes "--file" f.path (filled t b)
      (record (filled t b) { file_path = some f.path }) (λ rest. refl)
    then Reads-option messages_send_step messages_send_step-Consumes "--media-type"
        (λ v. record (filled t b) { file_path = some f.path; media_type = v }) (λ v rest. refl)
        f.media_type
    then Reads-option messages_send_step messages_send_step-Consumes "--file-name"
        (λ v. record (filled t b) {
          file_path = some f.path;
          media_type = f.media_type;
          file_name = v;
        })
        (λ v rest. refl) f.file_name

Reads-messages_send_words :
    (a : MessagesSendArgs)
    → Reads messages_send_step default_send
        (messages_send_words a)
        (sent_options a.target a.body a.file)
unfolding messages_send_words
Reads-messages_send_words a =
    Reads-target_words a.target
    then Reads-body_words a.target a.body
    then Reads-file_words a.target a.body a.file

message_target-room_of : (t : MessageTarget) → message_target (room_of t) (email_of t) ≡ ok t
message_target-room_of (room id) = refl
message_target-room_of (person_email email) = refl

message_body-text_of : (b : MessageBody) → message_body (text_of b) (markdown_of b) ≡ ok b
message_body-text_of (text t) = refl
message_body-text_of (markdown m) = refl

-- The command of the variables.
send_command-sent_options :
    (t : MessageTarget) (b : MessageBody) (f : Option FileArgs)
    → send_command (sent_options t b f)
      ≡ ok (messages_send (record { target = t; body = b; file = f }))
send_command-sent_options t b none = rw (message_target-room_of t, message_body-text_of b) refl
send_command-sent_options t b (some f) = rw (message_target-room_of t, message_body-text_of b) refl

pub parse_messages-send :
    (a : MessagesSendArgs) → parse_messages ("send" ∷ messages_send_words a) ≡ ok (messages_send a)
unfolding parse_messages messages_command parse_messages_send required_next next
parse_messages-send a =
    rw (Reads-parse_options (Reads-messages_send_words a))
      (send_command-sent_options a.target a.body a.file)

abbrev replied : MessagesReplyArgs → ReplyOptions
replied a = record {
  room_id = some a.room_id;
  parent_id = some a.parent_id;
  text_value = text_of a.body;
  markdown_value = markdown_of a.body;
}

Reads-reply_body :
    (r p : String) (b : MessageBody)
    → Reads messages_reply_step
        (record default_reply { room_id = some r; parent_id = some p })
        (body_words b)
        (replied (record { room_id = r; parent_id = p; body = b }))
unfolding flag option take_flag take_option required_next next strip_prefix
Reads-reply_body r p (text t) =
    Reads-value messages_reply_step messages_reply_step-Consumes "--text" t _ _ (λ rest. refl)
Reads-reply_body r p (markdown m) =
    Reads-value messages_reply_step messages_reply_step-Consumes "--markdown" m _ _ (λ rest. refl)

Reads-messages_reply_words :
    (a : MessagesReplyArgs)
    → Reads messages_reply_step default_reply (messages_reply_words a) (replied a)
unfolding flag option take_flag take_option required_next next strip_prefix messages_reply_words
Reads-messages_reply_words a =
    Reads-value messages_reply_step messages_reply_step-Consumes "--room-id" a.room_id
      (default_reply) (record default_reply { room_id = some a.room_id }) (λ rest. refl)
    then Reads-value messages_reply_step messages_reply_step-Consumes "--parent-id" a.parent_id
        (record default_reply { room_id = some a.room_id })
        (record default_reply { room_id = some a.room_id; parent_id = some a.parent_id })
        (λ rest. refl)
    then Reads-reply_body a.room_id a.parent_id a.body

pub parse_messages-reply :
    (a : MessagesReplyArgs)
    → parse_messages ("reply" ∷ messages_reply_words a) ≡ ok (messages_reply a)
unfolding parse_messages messages_command parse_messages_reply required_value required_next next
parse_messages-reply a =
    rw (Reads-parse_options (Reads-messages_reply_words a), message_body-text_of a.body) refl
