-- ===== src/Auth/Provider.antt =====
-- src/auth.rs: `RefreshingTokenProvider` and `MemoryTokenStore`. Calls of `access_token` run at once; each
-- turn of a call runs it to its next `await`.
pub mod Moves
pub mod Safe
use webex_headless_messenger.Common.{
  ℕ, ◌≡◌, String, Bool, true, false, Option, none, some, List, [], ◌∷◌, ◌++◌, All, if◌then◌else◌,
  Error, missing_token, Result, ok, err,
}
use webex_headless_messenger.Auth.{TokenSet, is_expiring_within}

-- Where a call stands: before the first load, before the lock, before the second load, in the request for new
-- tokens with the refresh token, the tokens that were loaded and the time of that load, before the save, or at
-- its end.
pub data Call : Type 0 where
  begun waiting locked : Call
  requesting : String → TokenSet → ℕ → Call
  saving : TokenSet → Call
  finished : Result String → Call

-- The token store, and the lock of the refreshes.
pub record ProviderState : Type 0 where
  pub store : Option TokenSet
  pub refresh_lock : Bool

-- What ends an `await`: a load at a time or its error, the lock, the server's answer, a save or its error.
pub data Turn : Type 0 where
  loads : ℕ → Option Error → Turn
  acquires : Turn
  answers : Result TokenSet → Turn
  saves : Option Error → Turn

abbrev pub unlocked : ProviderState → ProviderState
unlocked w = record w { refresh_lock = false }

-- The skew before the expiry at which tokens are refreshed, and the last `SystemTime` of the platform.
pub record Refreshes : Type 0 where
  pub refresh_skew : ℕ
  pub max_time : ℕ

module _ (refreshes : Refreshes) where
  abbrev pub is_expiring : TokenSet → ℕ → Result Bool
  is_expiring current now = is_expiring_within refreshes.max_time current now refreshes.refresh_skew

  -- What the first test leads to.
  abbrev pub first_test : TokenSet → Result Bool → Call
  first_test current (err e) = finished (err e)
  first_test current (ok true) = waiting
  first_test current (ok false) = finished (ok current.access_token)

  abbrev pub first_load : ℕ → Option TokenSet → Call
  first_load now none = finished (err missing_token)
  first_load now (some current) = first_test current (is_expiring current now)

  -- `current.refresh_token.ok_or(..)`.
  abbrev pub begin_refresh : TokenSet → Option String → ℕ → ProviderState → Call × ProviderState
  begin_refresh current none now w = (finished (err missing_token), unlocked w)
  begin_refresh current (some refresh_token) now w = (requesting refresh_token current now, w)

  -- What the second test leads to, under the lock.
  abbrev pub second_test : TokenSet → ℕ → ProviderState → Result Bool → Call × ProviderState
  second_test current now w (err e) = (finished (err e), unlocked w)
  second_test current now w (ok true) = begin_refresh current current.refresh_token now w
  second_test current now w (ok false) = (finished (ok current.access_token), unlocked w)

  abbrev pub second_load : ℕ → Option TokenSet → ProviderState → Call × ProviderState
  second_load now none w = (finished (err missing_token), unlocked w)
  second_load now (some current) w = second_test current now w (is_expiring current now)

  -- The refreshed tokens, with the old refresh token where the server gives no new one.
  abbrev pub keep_refresh_token : String → TokenSet → TokenSet → TokenSet
  keep_refresh_token refresh_token current refreshed = elim refreshed.refresh_token [
    | some new ↦ refreshed
    | none ↦ record refreshed {
      refresh_token = some refresh_token;
      refresh_token_expires_at = current.refresh_token_expires_at;
    }
  ]

  abbrev pub lock_turn : Bool → ProviderState → Option (Call × ProviderState)
  lock_turn true w = none
  lock_turn false w = some (locked, record w { refresh_lock = true })

  -- A call's turn, where it waits for it.
  unfoldable pub access_token : Turn → Call → ProviderState → Option (Call × ProviderState)
  access_token (loads now none) begun w = some (first_load now w.store, w)
  access_token (loads now (some e)) begun w = some (finished (err e), w)
  access_token acquires waiting w = lock_turn w.refresh_lock w
  access_token (loads now none) locked w = some (second_load now w.store w)
  access_token (loads now (some e)) locked w = some (finished (err e), unlocked w)
  access_token (answers (ok refreshed)) (requesting refresh_token current loaded_at) w =
      some (saving (keep_refresh_token refresh_token current refreshed), w)
  access_token (answers (err e)) (requesting refresh_token current loaded_at) w =
      some (finished (err e), unlocked w)
  access_token (saves none) (saving refreshed) w = some (
    finished (ok refreshed.access_token),
    record { store = some refreshed; refresh_lock = false },
  )
  access_token (saves (some e)) (saving refreshed) w = some (finished (err e), unlocked w)
  access_token turn call w = none

  -- Calls that have begun with a store, after any turns of any of them.
  pub data Reachable (start : Option TokenSet) : List Call → ProviderState → Type 0 where
    started :
        (calls : List Call)
        → All (λ call. call ≡ begun) calls
        → Reachable start calls (record { store = start; refresh_lock = false })
    turned :
        (before after : List Call) (call call' : Call) (w w' : ProviderState) (turn : Turn)
        → Reachable start (before ++ call ∷ after) w
        → access_token turn call w ≡ some (call', w')
        → Reachable start (before ++ call' ∷ after) w'
