-- ===== src/Auth/Device/Ends.antt =====
-- Why the loop of `auth_device` in src/bin/webex-headless.rs ends.
use webex_headless_messenger.Common.{
  ℕ, ◌+◌, ◌*◌, ◌≤◌, ◌<◌, ◌≡◌, ◌⊎◌, length, Option, none, some, List, [], ◌∷◌, cli, device_expired,
  panicked, Result, ok, err,
}
use webex_headless_messenger.Auth.{TokenSet}
use webex_headless_messenger.Auth.Device.{DeviceTokenStatus, authorized, max_duration}

abbrev pub IsSent : ℕ → List ℕ → Type 0
IsSent sent [] = ⊥
IsSent sent (first ∷ sends) = (sent ≡ first) ⊎ IsSent sent sends

module _ (poll : ℕ → Result DeviceTokenStatus × ℕ) where
  -- Tokens are the answer to a poll that was sent. An error is the answer to such a poll; or the authorization
  -- has expired, after a poll or before any could be sent; or the interval, after as many polls, is too long.
  abbrev pub IsExplained : ℕ → ℕ → ℕ → Result TokenSet → List ℕ → Type 0
  IsExplained interval earliest deadline (ok token) sends =
      (sent : ℕ) × IsSent sent sends × ((poll sent).0 ≡ ok (authorized token))
  IsExplained interval earliest deadline (err e) sends =
      ((sent : ℕ) × IsSent sent sends × ((poll sent).0 ≡ err e))
      ⊎ (((e ≡ cli device_expired) × ((deadline ≤ earliest) ⊎ (1 ≤ length sends)))
          ⊎ ((e ≡ panicked) × (max_duration < interval + 5000 * length sends)))

  abbrev Explains : ℕ → ℕ → ℕ → Option (Result TokenSet × List ℕ) → Type 0
  Explains interval earliest deadline none = Unit
  Explains interval earliest deadline (some (result, sends)) =
      IsExplained interval earliest deadline result sends
