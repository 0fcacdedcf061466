-- ===== src/Scenarios/Commands.antt =====
-- Command lines.
use webex_headless_messenger.Common.{
  refl, ◌<◌, ◌^◌, String, ◌≡◌, ◌≢◌, str_eq, eq_iff, true, false, some, [], ◌∷◌, ok, arith,
}
use webex_headless_messenger.Cli.{
  Cli, default_global, sidecar_receive, PollMessagesArgs, poll_messages,
}
use webex_headless_messenger.Cli.Parse.{parse, global_loop, parse_command}
use webex_headless_messenger.Cli.Cursor.{
  starts_with_dash, required_next, next, take_flag, take_option, strip_prefix,
}
use webex_headless_messenger.Cli.Options.{parse_options, options_loop, flag, option, required_value}
use webex_headless_messenger.Cli.Polling.{parse_poll, poll_command}
use webex_headless_messenger.Cli.Numbers.{parse_u16, parse_unsigned, parse_digits}
use webex_headless_messenger.Cli.Given.{parse-IsGiven}
use webex_headless_messenger.Cli.Words.{words}
use webex_headless_messenger.Cli.Read.{parse-words}

-- A receiver whose token looks like an option.
abbrev receiver : Cli
receiver = record {
  global_options = record default_global { token_file = some "tokens.json" };
  command = sidecar_receive (record {
    bind = "127.0.0.1:9000";
    path = "/events";
    health_path = "/health";
    token = some "--path";
    max_events = 12;
    allow_unauthenticated = false;
    allow_non_loopback = true;
  });
}

paths_differ : ◌≢◌ {A = String} "/events" "/health"
paths_differ e =
    let same : str_eq "/events" "/health" ≡ true = (eq_iff "/events" "/health").1 e in cc

parse-words_example : parse (words receiver) ≡ ok receiver
parse-words_example = parse-words receiver (paths_differ, omega arith)

-- `--max=20` in one word, and an interval that is left out.
abbrev polled_lines : PollMessagesArgs
polled_lines = record {
  room_id = "room-1";
  interval_seconds = 15;
  page_size = 20;
  emit_existing = true;
}

parse_poll_line :
    parse ("poll" ∷ "messages" ∷ "--max=20" ∷ "--emit-existing" ∷ "--room-id" ∷ "room-1" ∷ [])
    ≡ ok (record { global_options = default_global; command = poll_messages polled_lines })
unfolding parse global_loop starts_with_dash parse_command parse_poll poll_command required_next
    next parse_options options_loop flag option take_flag take_option strip_prefix required_value
    parse_u16 parse_unsigned parse_digits
parse_poll_line = refl

parse-IsGiven_example : (15 < 2 ^ 64) × (20 < 2 ^ 16)
parse-IsGiven_example =
    parse-IsGiven
      ("poll" ∷ "messages" ∷ "--max=20" ∷ "--emit-existing" ∷ "--room-id" ∷ "room-1" ∷ [])
      (record { global_options = default_global; command = poll_messages polled_lines })
      parse_poll_line
