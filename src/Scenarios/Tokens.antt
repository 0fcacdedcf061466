-- ===== src/Scenarios/Tokens.antt =====
-- Tokens that are refreshed, and a device that waits for its tokens.
use webex_headless_messenger.Common.{
  ℕ, ◌≤◌, refl, true, false, some, none, [], ◌∷◌, All, ok, arith, Result,
}
use webex_headless_messenger.Auth.{TokenSet, is_expiring_within}
use webex_headless_messenger.Auth.Provider.{
  begun, waiting, locked, requesting, ProviderState, Refreshes, loads, acquires, access_token,
  Reachable, started, turned,
}
use webex_headless_messenger.Auth.Provider.Moves.{Agrees, CanRefresh}
use webex_headless_messenger.Auth.Provider.Safe.{
  requests, access_token-Agrees, access_token-CanRefresh,
}
use webex_headless_messenger.Auth.Device.{
  DeviceAuthorization, DeviceTokenStatus, pending, authorized, wait_for_token,
}
use webex_headless_messenger.Auth.Device.Loop.{EndsSpaced, wait_for_token-EndsSpaced}

abbrev five_minutes : Refreshes
five_minutes = record { refresh_skew = 300; max_time = 100000 }

abbrev old_tokens : TokenSet
old_tokens = record {
  access_token = "access-1";
  refresh_token = some "refresh-1";
  token_type = "Bearer";
  scopes = [];
  expires_at = some 1000;
  refresh_token_expires_at = none;
}

abbrev free : ProviderState
free = record { store = some old_tokens; refresh_lock = false }

abbrev held : ProviderState
held = record { store = some old_tokens; refresh_lock = true }

-- Of two calls the second one has the lock and asks for new tokens.
refreshed_by_second :
    Reachable five_minutes
      (some old_tokens)
      (waiting ∷ requesting "refresh-1" old_tokens 900 ∷ [])
      held
unfolding access_token is_expiring_within
refreshed_by_second =
    turned (waiting ∷ []) [] locked (requesting "refresh-1" old_tokens 900) held held
      (loads 900 none)
      (turned (waiting ∷ []) [] waiting locked free held acquires
        (turned (waiting ∷ []) [] begun waiting free free (loads 800 none)
          (turned [] (begun ∷ []) begun waiting free free (loads 750 none)
            (started (begun ∷ begun ∷ []) (refl, (refl, tt))) refl)
          refl)
        refl)
      refl

access_token-Agrees_example :
    (requests (waiting ∷ requesting "refresh-1" old_tokens 900 ∷ []) ≤ 1)
    × All
        (Agrees five_minutes (some old_tokens))
        (waiting ∷ requesting "refresh-1" old_tokens 900 ∷ [])
access_token-Agrees_example =
    access_token-Agrees five_minutes (some old_tokens)
      (waiting ∷ requesting "refresh-1" old_tokens 900 ∷ []) held refreshed_by_second

has_refresh_token : CanRefresh (some old_tokens)
has_refresh_token e = cc

access_token-CanRefresh_example : CanRefresh (some old_tokens)
access_token-CanRefresh_example =
    access_token-CanRefresh five_minutes (some old_tokens)
      (waiting ∷ requesting "refresh-1" old_tokens 900 ∷ []) held has_refresh_token
      refreshed_by_second

abbrev device : DeviceAuthorization
device = record {
  device_code = "code";
  user_code = "user";
  verification_uri = "https://example.test";
  verification_uri_complete = none;
  expires_in = 12;
  interval = none;
}

-- The user never approves, and an answer takes 10 ms.
abbrev never : ℕ → Result DeviceTokenStatus × ℕ
never now = (ok (pending none), 10)

wait_for_token-EndsSpaced_example :
    EndsSpaced 5000 100 12100 (wait_for_token 20000 never device 100)
wait_for_token-EndsSpaced_example = wait_for_token-EndsSpaced 20000 never device 100 (omega arith)

-- The first answer brings tokens.
abbrev at_once : ℕ → Result DeviceTokenStatus × ℕ
at_once now = (ok (authorized old_tokens), 10)
