-- ===== src/Cli/Words.antt =====
-- The command lines that say a `Cli`, for src/bin/webex-headless.rs: each option with its value behind it, in
-- the order of the fields. The program does not print them; they are what `Cli::parse` promises to read.
use webex_headless_messenger.Common.{
  ℕ, ◌^◌, ◌<◌, ◌≡◌, ◌≢◌, String, Option, none, some, List, [], ◌∷◌, ◌++◌, All,
}
use webex_headless_messenger.Common.Text.{display_u64}
use webex_headless_messenger.Cli.{
  GlobalOptions, AuthDeviceArgs, AuthRefreshArgs, RoomsListArgs, RoomsResolveArgs, MessagesListArgs,
  MessagesDirectArgs, MessageTarget, room, person_email, MessageBody, text, markdown, FileArgs,
  MessagesSendArgs, MessagesReplyArgs, PollMessagesArgs, SidecarReceiveArgs, Command, help, me,
  auth_device, auth_refresh, rooms_list, rooms_get, rooms_resolve, messages_list, messages_direct,
  messages_get, messages_send, messages_reply, messages_delete, poll_messages, sidecar_receive, Cli,
}
use webex_headless_messenger.Cli.Options.Loop.{flag_words, option_words}
use webex_headless_messenger.Cli.Auth.{parse_scopes}

abbrev pub value_words : String → String → List String
value_words name value = name ∷ value ∷ []

abbrev pub max_words : Option ℕ → List String
max_words none = []
max_words (some n) = value_words "--max" (display_u64 n)

abbrev pub scope_words : List String → List String
scope_words [] = []
scope_words (scope ∷ scopes) = value_words "--scope" scope ++ scope_words scopes

unfoldable pub global_words : GlobalOptions → List String
global_words g =
    option_words "--access-token" g.access_token
    ++ (option_words "--token-file" g.token_file
        ++ (option_words "--client-id" g.client_id
            ++ (option_words "--client-secret" g.client_secret
                ++ option_words "--client-secret-file" g.client_secret_file)))

unfoldable pub auth_device_words : AuthDeviceArgs → List String
auth_device_words a =
    option_words "--client-id" a.client_id
    ++ (option_words "--client-secret" a.client_secret
        ++ (option_words "--client-secret-file" a.client_secret_file
            ++ (option_words "--token-file" a.token_file
                ++ (option_words "--access-token-file" a.access_token_file
                    ++ (flag_words "--access-token-file-group-readable"
                          a.access_token_file_group_readable
                        ++ (scope_words a.scopes ++ flag_words "--stdout-token" a.stdout_token))))))

unfoldable pub auth_refresh_words : AuthRefreshArgs → List String
auth_refresh_words a =
    option_words "--client-id" a.client_id
    ++ (option_words "--client-secret" a.client_secret
        ++ (option_words "--client-secret-file" a.client_secret_file
            ++ (option_words "--token-file" a.token_file
                ++ (option_words "--access-token-file" a.access_token_file
                    ++ flag_words "--access-token-file-group-readable"
                        a.access_token_file_group_readable))))

unfoldable pub rooms_list_words : RoomsListArgs → List String
rooms_list_words a =
    max_words a.max_items
    ++ (option_words "--type" a.room_type
        ++ (option_words "--team-id" a.team_id ++ flag_words "--all" a.all))

unfoldable pub rooms_resolve_words : RoomsResolveArgs → List String
rooms_resolve_words a =
    option_words "--room-id" a.room_id
    ++ (option_words "--link" a.link ++ option_words "--title" a.title)

unfoldable pub messages_list_words : MessagesListArgs → List String
messages_list_words a =
    value_words "--room-id" a.room_id
    ++ (option_words "--parent-id" a.parent_id
        ++ (max_words a.max_items ++ flag_words "--all" a.all))

unfoldable pub messages_direct_words : MessagesDirectArgs → List String
messages_direct_words a =
    option_words "--person-id" a.person_id
    ++ (option_words "--person-email" a.person_email
        ++ (option_words "--parent-id" a.parent_id ++ flag_words "--all" a.all))

abbrev pub target_words : MessageTarget → List String
target_words (room id) = value_words "--room-id" id
target_words (person_email email) = value_words "--to-person-email" email

abbrev pub body_words : MessageBody → List String
body_words (text t) = value_words "--text" t
body_words (markdown m) = value_words "--markdown" m

abbrev pub file_words : Option FileArgs → List String
file_words none = []
file_words (some f) =
    value_words "--file" f.path
    ++ (option_words "--media-type" f.media_type ++ option_words "--file-name" f.file_name)

unfoldable pub messages_send_words : MessagesSendArgs → List String
messages_send_words a = target_words a.target ++ (body_words a.body ++ file_words a.file)

unfoldable pub messages_reply_words : MessagesReplyArgs → List String
messages_reply_words a =
    value_words "--room-id" a.room_id
    ++ (value_words "--parent-id" a.parent_id ++ body_words a.body)

unfoldable pub poll_words : PollMessagesArgs → List String
poll_words a =
    value_words "--room-id" a.room_id
    ++ (value_words "--interval-seconds" (display_u64 a.interval_seconds)
        ++ (value_words "--max" (display_u64 a.page_size)
            ++ flag_words "--emit-existing" a.emit_existing))

unfoldable pub sidecar_words : SidecarReceiveArgs → List String
sidecar_words a =
    value_words "--bind" a.bind
    ++ (value_words "--path" a.path
        ++ (value_words "--health-path" a.health_path
            ++ (option_words "--token" a.token
                ++ (value_words "--max-events" (display_u64 a.max_events)
                    ++ (flag_words "--allow-unauthenticated" a.allow_unauthenticated
                        ++ flag_words "--allow-non-loopback" a.allow_non_loopback)))))

unfoldable pub command_words : Command → List String
command_words help = "--help" ∷ []
command_words me = "me" ∷ []
command_words (auth_device a) = "auth" ∷ "device" ∷ auth_device_words a
command_words (auth_refresh a) = "auth" ∷ "refresh" ∷ auth_refresh_words a
command_words (rooms_list a) = "rooms" ∷ "list" ∷ rooms_list_words a
command_words (rooms_get id) = "rooms" ∷ "get" ∷ value_words "--room-id" id
command_words (rooms_resolve a) = "rooms" ∷ "resolve" ∷ rooms_resolve_words a
command_words (messages_list a) = "messages" ∷ "list" ∷ messages_list_words a
command_words (messages_direct a) = "messages" ∷ "direct" ∷ messages_direct_words a
command_words (messages_get id) = "messages" ∷ "get" ∷ value_words "--message-id" id
command_words (messages_send a) = "messages" ∷ "send" ∷ messages_send_words a
command_words (messages_reply a) = "messages" ∷ "reply" ∷ messages_reply_words a
command_words (messages_delete id) = "messages" ∷ "delete" ∷ value_words "--message-id" id
command_words (poll_messages a) = "poll" ∷ "messages" ∷ poll_words a
command_words (sidecar_receive a) = "sidecar" ∷ "receive" ∷ sidecar_words a

unfoldable pub words : Cli → List String
words cli = global_words cli.global_options ++ command_words cli.command

-- A `--max` that a `u16` holds.
abbrev pub FitsMax : Option ℕ → Type 0
FitsMax none = Unit
FitsMax (some n) = n < 2 ^ 16

-- One person, by id or by email.
abbrev pub OneTarget : Option String → Option String → Type 0
OneTarget (some id) none = Unit
OneTarget none (some email) = Unit
OneTarget (some id) (some email) = ⊥
OneTarget none none = ⊥

-- What the types of the source say of the numbers, and what the parser checks: a command that a command
-- line can give.
abbrev pub IsGiven : Command → Type 0
IsGiven help = Unit
IsGiven me = Unit
IsGiven (auth_device a) = All (λ scope. parse_scopes scope ≡ scope ∷ []) a.scopes
IsGiven (auth_refresh a) = Unit
IsGiven (rooms_list a) = FitsMax a.max_items
IsGiven (rooms_get id) = Unit
IsGiven (rooms_resolve a) = Unit
IsGiven (messages_list a) = FitsMax a.max_items
IsGiven (messages_direct a) = OneTarget a.person_id a.person_email
IsGiven (messages_get id) = Unit
IsGiven (messages_send a) = Unit
IsGiven (messages_reply a) = Unit
IsGiven (messages_delete id) = Unit
IsGiven (poll_messages a) = (a.interval_seconds < 2 ^ 64) × (a.page_size < 2 ^ 16)
IsGiven (sidecar_receive a) = (a.path ≢ a.health_path) × (a.max_events < 2 ^ 64)
