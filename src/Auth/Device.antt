-- ===== src/Auth/Device.antt =====
-- src/auth.rs: the polling for a device's tokens, and src/bin/webex-headless.rs: the loop of `auth_device`.
pub mod Loop
pub mod Ends
use webex_headless_messenger.Common.{
  ℕ, zero, suc, ◌+◌, ◌-◌, ◌*◌, ◌^◌, String, ◌==◌, ◌||◌, ◌&&◌, leb, max, Bool, true, false, Option,
  none, some, List, [], ◌∷◌, if◌then◌else◌, Error, api, cli, client_secret_required,
  authorization_pending, panicked, device_expired, Result, ok, err, ◌>>=◌,
}
use webex_headless_messenger.Common.Text.{codes, trim}
use webex_headless_messenger.Sidecar.{Text}
use webex_headless_messenger.Sidecar.Lines.{to_ascii_lowercase, text_eq}
use webex_headless_messenger.Sidecar.Request.{find_bytes}
use webex_headless_messenger.Auth.{OAuthConfig, TokenSet, TokenResponse, UtcBounds, into_token_set}

pub data DeviceTokenStatus : Type 0 where
  pending slow_down : Option ℕ → DeviceTokenStatus
  authorized : TokenSet → DeviceTokenStatus

-- What `normalize_device_oauth_error_code` gives.
pub data ErrorCode : Type 0 where
  is_pending is_slow_down : ErrorCode

-- `str::contains`, of a text that is not empty.
abbrev pub contains_text : Text → Text → Bool
contains_text text part = elim (find_bytes text part) [ none ↦ false | some i ↦ true ]

unfoldable pub normalize_device_oauth_error_code : Text → Option ErrorCode
normalize_device_oauth_error_code value =
    let normalized = to_ascii_lowercase (trim value) in
    if text_eq normalized (codes "authorization_pending")
      || contains_text normalized (codes "authorization_pending")
    then some is_pending
    else if text_eq normalized (codes "slow_down") || contains_text normalized (codes "slow_down")
    then some is_slow_down
    else none

-- The texts of the body at the seven places, where there is one: `flatten` and `find_map`.
unfoldable pub oauth_error_code : List (Option Text) → Option ErrorCode
oauth_error_code [] = none
oauth_error_code (none ∷ places) = oauth_error_code places
oauth_error_code (some value ∷ places) =
    let rest = oauth_error_code places in
    elim (normalize_device_oauth_error_code value) [ some found ↦ some found | none ↦ rest ]

-- A response: its status, its `Retry-After` in milliseconds, the texts of its body at those places, and its
-- body as tokens.
pub record DeviceResponse : Type 0 where
  pub status : ℕ
  pub retry_after : Option ℕ
  pub places : List (Option Text)
  pub tokens : Result TokenResponse

abbrev pub decode_device_token_bad_request : DeviceResponse → Result DeviceTokenStatus
decode_device_token_bad_request r = elim (oauth_error_code r.places) [
  | some is_pending ↦ ok (pending r.retry_after)
  | some is_slow_down ↦ ok (slow_down r.retry_after)
  | none ↦ err api
]

-- `decode_response`.
abbrev pub decode_response : DeviceResponse → Result TokenResponse
decode_response r =
    if leb 200 r.status && leb r.status 299
    then r.tokens
    else if r.status == 428
    then err authorization_pending
    else err api

abbrev pub token_status : UtcBounds → ℕ → DeviceResponse → Result DeviceTokenStatus
token_status bounds now r =
    if r.status == 428
    then ok (pending r.retry_after)
    else if r.status == 400
    then decode_device_token_bad_request r
    else (decode_response r >>= λ response.
        into_token_set bounds response now >>= λ token. ok (authorized token))

-- `poll_device_token`, of the answer to its request.
unfoldable pub poll_device_token :
    OAuthConfig → UtcBounds → ℕ → Result DeviceResponse → Result DeviceTokenStatus
poll_device_token config bounds now answer = elim config.client_secret [
  | none ↦ err client_secret_required
  | some secret ↦ answer >>= token_status bounds now
]

-- `retry_after.unwrap_or(Duration::ZERO).max(interval)`.
abbrev pub pause : Option ℕ → ℕ → ℕ
pause none interval = max 0 interval
pause (some retry_after) interval = max retry_after interval

-- What a round of the loop of `auth_device` comes to: the end, or a pause and the next interval.
pub data PollRound : Type 0 where
  ended : Result TokenSet → PollRound
  sleeps : ℕ → ℕ → PollRound

-- The longest `std::time::Duration`, in whole milliseconds.
abbrev pub max_duration : ℕ
max_duration = (2 ^ 64 - 1) * 1000 + 999

-- `interval += ..` panics where the sum is no `Duration`.
unfoldable pub poll_round : ℕ → Result DeviceTokenStatus → PollRound
poll_round interval (err e) = ended (err e)
poll_round interval (ok (authorized token)) = ended (ok token)
poll_round interval (ok (pending retry_after)) = sleeps (pause retry_after interval) interval
poll_round interval (ok (slow_down retry_after)) =
    if leb (interval + 5000) max_duration
    then sleeps (pause retry_after (interval + 5000)) (interval + 5000)
    else ended (err panicked)

-- What `Instant::now() >= deadline` and the round leave of a loop: its end, or its rest after a pause.
abbrev pub in_round :
    Bool
    → PollRound
    → ℕ
    → (ℕ → ℕ → Option (Result TokenSet × List ℕ))
    → Option (Result TokenSet × List ℕ)
in_round true round now rest = some (err (cli device_expired), [])
in_round false (ended result) now rest = some (result, now ∷ [])
in_round false (sleeps length next) now rest = elim (rest length next) [
  | none ↦ none
  | some (result, sends) ↦ some (result, now ∷ sends)
]

-- The loop, on fuel: `poll` is the answer of a poll that is sent at an instant, with the time that it takes.
-- The result says when each poll is sent.
unfoldable pub device_loop :
    (ℕ → Result DeviceTokenStatus × ℕ) → ℕ → ℕ → ℕ → ℕ → Option (Result TokenSet × List ℕ)
device_loop poll zero deadline interval now = none
device_loop poll (suc fuel) deadline interval now =
    in_round (leb deadline now) (poll_round interval (poll now).0) now
      (λ length next. device_loop poll fuel deadline next (now + (poll now).1 + length))

pub record DeviceAuthorization : Type 0 where
  pub device_code : String
  pub user_code : String
  pub verification_uri : String
  pub verification_uri_complete : Option String
  pub expires_in : ℕ
  pub interval : Option ℕ

abbrev pub seconds_or_five : Option ℕ → ℕ
seconds_or_five none = 5
seconds_or_five (some n) = n

-- The deadline, the first interval and the loop of `auth_device`, from an instant on. `max_instant` is the last
-- `Instant` of the platform: the sum for the deadline panics behind it.
unfoldable pub wait_for_token :
    ℕ
    → (ℕ → Result DeviceTokenStatus × ℕ)
    → DeviceAuthorization
    → ℕ
    → Option (Result TokenSet × List ℕ)
wait_for_token max_instant poll auth now =
    let waited =
      device_loop poll (suc (auth.expires_in * 1000)) (now + auth.expires_in * 1000)
        (seconds_or_five auth.interval * 1000) now in
    if leb (now + auth.expires_in * 1000) max_instant then waited else some (err panicked, [])
