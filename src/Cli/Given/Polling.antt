-- ===== src/Cli/Given/Polling.antt =====
-- What `poll` and `sidecar` give.
use webex_headless_messenger.Common.{
  ◌^◌, ◌<◌, ◌≡◌, ◌≢◌, String, false, Bool-cases, str_eq, ok, ◌>>=◌, inl, inr, sym, >>=-eq-ok,
  ok-injective, err-ne-ok,
}
use webex_headless_messenger.Cli.{PollMessagesArgs, SidecarReceiveArgs, Command, poll_messages}
use webex_headless_messenger.Cli.Cursor.{required_next}
use webex_headless_messenger.Cli.Options.{required_value, parse_options}
use webex_headless_messenger.Cli.Cursor.{ArgCursor}
use webex_headless_messenger.Cli.Options.Kept.{
  Keeps, unknown-Keeps, flag-Keeps, option-Keeps, setter-Keeps, parse_options-Keeps,
}
use webex_headless_messenger.Cli.Numbers.{parse_u16, parse_u64, parse_usize}
use webex_headless_messenger.Cli.Numbers.Range.{parse_u64_bound, parse_usize_bound}
use webex_headless_messenger.Cli.Words.{IsGiven}
use webex_headless_messenger.Cli.Given.Built.{built, max_kept}
use webex_headless_messenger.Common.{arith, str_eq_refl}
use webex_headless_messenger.Cli.Polling.{
  PollOptions, default_poll, poll_step, poll_command, parse_poll, default_sidecar, sidecar_step,
  checked_sidecar, sidecar_command, parse_sidecar,
}

abbrev FitsPoll : PollOptions → Type 0
FitsPoll o = (o.interval_seconds < 2 ^ 64) × (o.page_size < 2 ^ 16)

interval_kept :
    (v : String) (a b : PollOptions)
    → FitsPoll a
    → (parse_u64 "--interval-seconds" v >>= λ n. ok (record a { interval_seconds = n })) ≡ ok b
    → FitsPoll b
interval_kept v a b h =
    built FitsPoll (parse_u64 "--interval-seconds" v) (λ n. record a { interval_seconds = n }) b
      (λ n read. (parse_u64_bound "--interval-seconds" v n read, h.1))

page_size_kept :
    (v : String) (a b : PollOptions)
    → FitsPoll a
    → (parse_u16 "--max" v >>= λ n. ok (record a { page_size = n })) ≡ ok b
    → FitsPoll b
page_size_kept v a b h =
    max_kept FitsPoll (λ n. record a { page_size = n }) v b (λ n fits. (h.0, fits))

poll_step-Keeps : Keeps FitsPoll poll_step
poll_step-Keeps =
    flag-Keeps FitsPoll _ _ _ (λ a h. h)
      (setter-Keeps FitsPoll _ _ _ (λ v a h. h)
        (option-Keeps FitsPoll _ _ _ interval_kept
          (option-Keeps FitsPoll _ _ _ page_size_kept (unknown-Keeps FitsPoll _))))

abbrev poll_args : PollOptions → String → PollMessagesArgs
poll_args o room_id = record {
  room_id = room_id;
  interval_seconds = o.interval_seconds;
  page_size = o.page_size;
  emit_existing = o.emit_existing;
}

poll-IsGiven :
    (c : ArgCursor) (cmd : Command)
    → (parse_options poll_step default_poll c >>= λ o.
        required_value o.room_id "--room-id" >>= λ r. ok (poll_messages (poll_args o r)))
      ≡ ok cmd
    → IsGiven cmd
poll-IsGiven c cmd e =
    let (o, read, rest) =
      >>=-eq-ok (parse_options poll_step default_poll c)
        (λ o. required_value o.room_id "--room-id" >>= λ r. ok (poll_messages (poll_args o r))) e in
    built IsGiven (required_value o.room_id "--room-id") (λ r. poll_messages (poll_args o r)) cmd
      (λ r _.
        parse_options-Keeps FitsPoll poll_step poll_step-Keeps default_poll o c
          (omega arith, omega arith) read)
      rest

abbrev FitsEvents : SidecarReceiveArgs → Type 0
FitsEvents a = a.max_events < 2 ^ 64

max_events_kept :
    (v : String) (a b : SidecarReceiveArgs)
    → FitsEvents a
    → (parse_usize "--max-events" v >>= λ n. ok (record a { max_events = n })) ≡ ok b
    → FitsEvents b
max_events_kept v a b h =
    built FitsEvents (parse_usize "--max-events" v) (λ n. record a { max_events = n }) b
      (parse_usize_bound "--max-events" v)

sidecar_step-Keeps : Keeps FitsEvents sidecar_step
sidecar_step-Keeps =
    flag-Keeps FitsEvents _ _ _ (λ a h. h)
      (flag-Keeps FitsEvents _ _ _ (λ a h. h)
        (setter-Keeps FitsEvents _ _ _ (λ v a h. h)
          (setter-Keeps FitsEvents _ _ _ (λ v a h. h)
            (setter-Keeps FitsEvents _ _ _ (λ v a h. h)
              (setter-Keeps FitsEvents _ _ _ (λ v a h. h)
                (option-Keeps FitsEvents _ _ _ max_events_kept (unknown-Keeps FitsEvents _)))))))

differ_paths :
    (a : SidecarReceiveArgs) → str_eq a.path a.health_path ≡ false → a.path ≢ a.health_path
differ_paths a differ same = let equal = str_eq_refl a.health_path in cc (rw same at differ)

checked_sidecar-IsGiven :
    (a : SidecarReceiveArgs) (cmd : Command)
    → FitsEvents a
    → checked_sidecar a ≡ ok cmd
    → IsGiven cmd
checked_sidecar-IsGiven a cmd fits e = elim (Bool-cases (str_eq a.path a.health_path)) [
  | inl same ↦ absurd (err-ne-ok (rw same at e))
  | inr differ ↦ rw (sym (ok-injective (rw differ at e))) (differ_paths a differ, fits)
]

sidecar-IsGiven :
    (c : ArgCursor) (cmd : Command)
    → (parse_options sidecar_step default_sidecar c >>= checked_sidecar) ≡ ok cmd
    → IsGiven cmd
sidecar-IsGiven c cmd e =
    let (a, read, rest) =
      >>=-eq-ok (parse_options sidecar_step default_sidecar c) checked_sidecar e in
    checked_sidecar-IsGiven a cmd
      (parse_options-Keeps FitsEvents sidecar_step sidecar_step-Keeps default_sidecar a c
        (omega arith) read)
      rest

poll_command-IsGiven :
    (p : String × ArgCursor) (cmd : Command) → poll_command p ≡ ok cmd → IsGiven cmd
unfolding poll_command
poll_command-IsGiven (subcommand, c) cmd e = elim (Bool-cases (str_eq subcommand "messages")) [
  | inl n0 ↦ poll-IsGiven c cmd (rw n0 at e)
  | inr n0 ↦ absurd (err-ne-ok (rw n0 at e))
]

sidecar_command-IsGiven :
    (p : String × ArgCursor) (cmd : Command) → sidecar_command p ≡ ok cmd → IsGiven cmd
unfolding sidecar_command
sidecar_command-IsGiven (subcommand, c) cmd e = elim (Bool-cases (str_eq subcommand "receive")) [
  | inl n0 ↦ sidecar-IsGiven c cmd (rw n0 at e)
  | inr n0 ↦ absurd (err-ne-ok (rw n0 at e))
]

pub parse_poll-IsGiven : (c : ArgCursor) (cmd : Command) → parse_poll c ≡ ok cmd → IsGiven cmd
unfolding parse_poll
parse_poll-IsGiven c cmd e =
    let (p, _, rest) = >>=-eq-ok (required_next "poll subcommand" c) poll_command e in
    poll_command-IsGiven p cmd rest

pub parse_sidecar-IsGiven : (c : ArgCursor) (cmd : Command) → parse_sidecar c ≡ ok cmd → IsGiven cmd
unfolding parse_sidecar
parse_sidecar-IsGiven c cmd e =
    let (p, _, rest) = >>=-eq-ok (required_next "sidecar subcommand" c) sidecar_command e in
    sidecar_command-IsGiven p cmd rest
