-- ===== src/Auth/Device/Loop.antt =====
-- The loop of `auth_device` in src/bin/webex-headless.rs ends, and keeps its distance.
use webex_headless_messenger.Common.{
  ℕ, zero, suc, ◌+◌, ◌*◌, ◌≤◌, ◌<◌, ◌≡◌, refl, sym, arith, leb, false, Bool-cases, inl, inr, Option,
  none, some, List, [], ◌∷◌, cli, device_expired, panicked, Result, ok, err,
}
use mathlib.Core.Path.{subst}
use webex_headless_messenger.Auth.{TokenSet}
use webex_headless_messenger.Auth.Device.{
  DeviceTokenStatus, pending, slow_down, authorized, pause, PollRound, ended, sleeps, poll_round,
  in_round, device_loop, DeviceAuthorization, seconds_or_five, max_duration, wait_for_token,
}

-- The polls are sent from an instant on, at least an interval apart, and before the deadline.
abbrev pub IsSpaced : ℕ → ℕ → ℕ → List ℕ → Type 0
IsSpaced interval earliest deadline [] = Unit
IsSpaced interval earliest deadline (sent ∷ sends) =
    (earliest ≤ sent) × (sent < deadline) × IsSpaced interval (sent + interval) deadline sends

IsSpaced-le :
    (interval next earliest later deadline : ℕ) (sends : List ℕ)
    → interval ≤ next
    → earliest ≤ later
    → IsSpaced next later deadline sends
    → IsSpaced interval earliest deadline sends
IsSpaced-le interval next earliest later deadline [] h k s = tt
IsSpaced-le interval next earliest later deadline (sent ∷ sends) h k s = (
  omega (arith, s.0),
  s.1,
  IsSpaced-le interval next (sent + interval) (sent + next) deadline sends h (omega arith) s.2,
)

-- A loop that ends with its polls spaced.
abbrev pub EndsSpaced : ℕ → ℕ → ℕ → Option (Result TokenSet × List ℕ) → Type 0
EndsSpaced interval earliest deadline o =
    (end : Result TokenSet × List ℕ) × (o ≡ some end) × IsSpaced interval earliest deadline end.1

abbrev LongPause : ℕ → PollRound → Type 0
LongPause interval (ended result) = Unit
LongPause interval (sleeps length next) = (interval ≤ length) × (interval ≤ next)

pause_bound : (o : Option ℕ) (interval : ℕ) → interval ≤ pause o interval
pause_bound none interval = omega arith
pause_bound (some n) interval = omega arith

poll_round-LongPause :
    (interval : ℕ) (status : Result DeviceTokenStatus)
    → LongPause interval (poll_round interval status)
unfolding poll_round
poll_round-LongPause interval (err e) = tt
poll_round-LongPause interval (ok (authorized token)) = tt
poll_round-LongPause interval (ok (pending o)) = (pause_bound o interval, omega arith)
poll_round-LongPause interval (ok (slow_down o)) =
    let bound = pause_bound o (interval + 5000) in
    elim (Bool-cases (leb (interval + 5000) max_duration)) [
      | inl e ↦ rw e (omega arith, omega arith)
      | inr e ↦ rw e tt
    ]

later_spaced :
    (interval next deadline now length : ℕ) (o : Option (Result TokenSet × List ℕ))
    → interval ≤ length
    → interval ≤ next
    → now < deadline
    → EndsSpaced next (now + length) deadline o
    → EndsSpaced interval now deadline
        (elim o [ none ↦ none | some (result, sends) ↦ some (result, now ∷ sends) ])
later_spaced interval next deadline now length none h k left (end, same, spaced) = cc
later_spaced interval next deadline now length (some (result, sends)) h k left (end, same, spaced) =
    let is_end : (result, sends) ≡ end = cc in
    let given : IsSpaced next (now + length) deadline sends =
      subst (λ e. IsSpaced next (now + length) deadline e.1) (sym is_end) spaced in
    (
      (result, now ∷ sends),
      refl,
      (
        omega arith,
        left,
        IsSpaced-le interval next (now + interval) (now + length) deadline sends k (omega arith)
            given,
      ),
    )

round_left :
    (round : PollRound) (interval deadline now : ℕ)
    (rest : ℕ → ℕ → Option (Result TokenSet × List ℕ))
    → LongPause interval round
    → now < deadline
    → ((length next : ℕ)
        → interval ≤ length
        → interval ≤ next
        → EndsSpaced next (now + length) deadline (rest length next))
    → EndsSpaced interval now deadline (in_round false round now rest)
round_left (ended result) interval deadline now rest long left later =
    ((result, now ∷ []), refl, (omega arith, left, tt))
round_left (sleeps length next) interval deadline now rest long left later =
    later_spaced interval next deadline now length (rest length next) long.0 long.1 left
      (later length next long.0 long.1)

in_round-EndsSpaced :
    (round : PollRound) (interval deadline now : ℕ)
    (rest : ℕ → ℕ → Option (Result TokenSet × List ℕ))
    → LongPause interval round
    → (now < deadline
        → (length next : ℕ) → interval ≤ length
        → interval ≤ next
        → EndsSpaced next (now + length) deadline (rest length next))
    → EndsSpaced interval now deadline (in_round (leb deadline now) round now rest)
in_round-EndsSpaced round interval deadline now rest long later =
    elim (Bool-cases (leb deadline now)) [
      | inl over ↦ rw over ((err (cli device_expired), []), refl, tt)
      | inr left ↦
          (let before : now < deadline = ground arith in
            rw left (round_left round interval deadline now rest long before (later before)))
    ]

EndsSpaced-le :
    (interval earliest later deadline : ℕ) (o : Option (Result TokenSet × List ℕ))
    → earliest ≤ later
    → EndsSpaced interval later deadline o
    → EndsSpaced interval earliest deadline o
EndsSpaced-le interval earliest later deadline o h (end, same, spaced) =
    (end, same, IsSpaced-le interval interval earliest later deadline end.1 (omega arith) h spaced)

device_loop-EndsSpaced :
    (poll : ℕ → Result DeviceTokenStatus × ℕ) (fuel deadline interval now : ℕ)
    → 1 ≤ interval
    → deadline ≤ now + fuel
    → EndsSpaced interval now deadline (device_loop poll (suc fuel) deadline interval now)
unfolding device_loop
device_loop-EndsSpaced poll zero deadline interval now positive enough =
    in_round-EndsSpaced (poll_round interval (poll now).0) interval deadline now _
      (poll_round-LongPause interval (poll now).0) (λ before. absurd (omega arith))
device_loop-EndsSpaced poll (suc fuel) deadline interval now positive enough =
    in_round-EndsSpaced (poll_round interval (poll now).0) interval deadline now _
      (poll_round-LongPause interval (poll now).0)
      (λ before length next h k.
        EndsSpaced-le next (now + length) (now + (poll now).1 + length) deadline _ (omega arith) (
          device_loop-EndsSpaced poll fuel deadline next (now + (poll now).1 + length) (omega arith)
            (omega arith)))

-- Where the server does not ask for an interval of 0, the wait for the tokens of a device ends, whatever the
-- server answers and however long it takes: with tokens, with an error, because the authorization has
-- expired, or by a panic where the deadline or the interval overflows. Its polls are sent at least the server's interval, or 5 seconds, apart, and none after the
-- authorization has expired.
pub wait_for_token-EndsSpaced :
    (max_instant : ℕ) (poll : ℕ → Result DeviceTokenStatus × ℕ) (auth : DeviceAuthorization)
    (now : ℕ)
    → 1 ≤ seconds_or_five auth.interval
    → EndsSpaced
        (seconds_or_five auth.interval * 1000)
        now
        (now + auth.expires_in * 1000)
        (wait_for_token max_instant poll auth now)
unfolding wait_for_token
wait_for_token-EndsSpaced max_instant poll auth now positive =
    elim (Bool-cases (leb (now + auth.expires_in * 1000) max_instant)) [
      | inl e ↦ rw e (
          device_loop-EndsSpaced poll (auth.expires_in * 1000) (now + auth.expires_in * 1000)
            (seconds_or_five auth.interval * 1000) now (omega arith) (omega arith))
      | inr e ↦ rw e ((err panicked, []), refl, tt)
    ]
