-- ===== src/Cli/Read/Polling.antt =====
-- `poll messages` and `sidecar receive`.
use webex_headless_messenger.Common.{
  ◌^◌, ◌<◌, ◌≡◌, ◌≢◌, refl, String, false, Bool-cases, str_eq, str_eq→eq, some, ◌∷◌, ok, inl, inr,
  if◌then◌else◌,
}
use webex_headless_messenger.Common.Text.{display_u64}
use webex_headless_messenger.Cli.{
  PollMessagesArgs, SidecarReceiveArgs, poll_messages, sidecar_receive,
}
use webex_headless_messenger.Cli.Cursor.{take_flag, take_option, required_next, next, strip_prefix}
use webex_headless_messenger.Cli.Options.{flag, option, required_value}
use webex_headless_messenger.Cli.Options.Loop.{
  Consumes, flag-Consumes, option-Consumes, unknown-Consumes, Reads, ◌then◌, Reads-flag,
  Reads-option, Reads-value, Reads-parse_options,
}
use webex_headless_messenger.Cli.Numbers.Digits.{
  parse_u16-display_u64, parse_u64-display_u64, parse_usize-display_u64,
}
use webex_headless_messenger.Cli.Words.{poll_words, sidecar_words}
use webex_headless_messenger.Cli.Polling.{
  PollOptions, default_poll, poll_step, poll_command, parse_poll, default_sidecar, sidecar_step,
  sidecar_command, parse_sidecar,
}

poll_step-Consumes : Consumes poll_step
poll_step-Consumes =
    flag-Consumes _ _ _
      (option-Consumes _ _ _ (option-Consumes _ _ _ (option-Consumes _ _ _ (unknown-Consumes _))))

sidecar_step-Consumes : Consumes sidecar_step
sidecar_step-Consumes = flag-Consumes _ _ _ (
    flag-Consumes _ _ _ (
      option-Consumes _ _ _ (
        option-Consumes _ _ _ (
          option-Consumes _ _ _
            (option-Consumes _ _ _ (option-Consumes _ _ _ (unknown-Consumes _)))))))

-- The variables of the loop, once the words are read.
abbrev poll_options : PollMessagesArgs → PollOptions
poll_options a = record {
  room_id = some a.room_id;
  interval_seconds = a.interval_seconds;
  page_size = a.page_size;
  emit_existing = a.emit_existing;
}

Reads-poll_words :
    (a : PollMessagesArgs)
    → a.interval_seconds < 2 ^ 64
    → a.page_size < 2 ^ 16
    → Reads poll_step default_poll (poll_words a) (poll_options a)
unfolding flag option take_flag take_option required_next next strip_prefix poll_words
Reads-poll_words a h k =
    Reads-value poll_step poll_step-Consumes "--room-id" a.room_id (default_poll)
      (record default_poll { room_id = some a.room_id }) (λ rest. refl)
    then Reads-value poll_step poll_step-Consumes "--interval-seconds"
        (display_u64 a.interval_seconds) (record default_poll { room_id = some a.room_id })
        (record default_poll { room_id = some a.room_id; interval_seconds = a.interval_seconds })
        (λ rest. rw (parse_u64-display_u64 "--interval-seconds" a.interval_seconds h) refl)
    then Reads-value poll_step poll_step-Consumes "--max" (display_u64 a.page_size)
        (record default_poll { room_id = some a.room_id; interval_seconds = a.interval_seconds })
        (record (poll_options a) { emit_existing = false })
        (λ rest. rw (parse_u16-display_u64 "--max" a.page_size k) refl)
    then Reads-flag poll_step poll_step-Consumes "--emit-existing"
        (λ b. record (poll_options a) { emit_existing = b }) (λ rest. refl) a.emit_existing

pub parse_poll-messages :
    (a : PollMessagesArgs)
    → a.interval_seconds < 2 ^ 64
    → a.page_size < 2 ^ 16
    → parse_poll ("messages" ∷ poll_words a) ≡ ok (poll_messages a)
unfolding parse_poll poll_command required_value required_next next
parse_poll-messages a h k = rw (Reads-parse_options (Reads-poll_words a h k)) refl

Reads-sidecar_words :
    (a : SidecarReceiveArgs)
    → a.max_events < 2 ^ 64
    → Reads sidecar_step default_sidecar (sidecar_words a) a
unfolding flag option take_flag take_option required_next next strip_prefix sidecar_words
Reads-sidecar_words a h =
    Reads-value sidecar_step sidecar_step-Consumes "--bind" a.bind (default_sidecar)
      (record default_sidecar { bind = a.bind }) (λ rest. refl)
    then Reads-value sidecar_step sidecar_step-Consumes "--path" a.path
        (record default_sidecar { bind = a.bind })
        (record default_sidecar { bind = a.bind; path = a.path }) (λ rest. refl)
    then Reads-value sidecar_step sidecar_step-Consumes "--health-path" a.health_path
        (record default_sidecar { bind = a.bind; path = a.path })
        (record default_sidecar { bind = a.bind; path = a.path; health_path = a.health_path })
        (λ rest. refl)
    then Reads-option sidecar_step sidecar_step-Consumes "--token"
        (λ o. record default_sidecar {
          bind = a.bind;
          path = a.path;
          health_path = a.health_path;
          token = o;
        })
        (λ v rest. refl) a.token
    then Reads-value sidecar_step sidecar_step-Consumes "--max-events" (display_u64 a.max_events)
        (record a { max_events = 0; allow_unauthenticated = false; allow_non_loopback = false })
        (record a { allow_unauthenticated = false; allow_non_loopback = false })
        (λ rest. rw (parse_usize-display_u64 "--max-events" a.max_events h) refl)
    then Reads-flag sidecar_step sidecar_step-Consumes "--allow-unauthenticated"
        (λ b. record a { allow_unauthenticated = b; allow_non_loopback = false }) (λ rest. refl)
        a.allow_unauthenticated
    then Reads-flag sidecar_step sidecar_step-Consumes "--allow-non-loopback"
        (λ b. record a { allow_non_loopback = b }) (λ rest. refl) a.allow_non_loopback

distinct : (s t : String) → s ≢ t → str_eq s t ≡ false
distinct s t h = elim (Bool-cases (str_eq s t)) [ inl e ↦ absurd (h (str_eq→eq s t e)) | inr e ↦ e ]

pub parse_sidecar-receive :
    (a : SidecarReceiveArgs)
    → a.path ≢ a.health_path
    → a.max_events < 2 ^ 64
    → parse_sidecar ("receive" ∷ sidecar_words a) ≡ ok (sidecar_receive a)
unfolding parse_sidecar sidecar_command required_next next
parse_sidecar-receive a h k =
    rw (Reads-parse_options (Reads-sidecar_words a k), distinct a.path a.health_path h) refl
