-- ===== src/Auth.antt =====
-- src/auth.rs: the OAuth configuration and the tokens. A time is a number of milliseconds since 1970; a time
-- before that is 1970, which is as long past.
pub mod Client
pub mod Device
pub mod Provider
use webex_headless_messenger.Common.{
  ℕ, ◌+◌, ◌-◌, ◌*◌, String, Bool, true, false, Option, none, some, List, [], ◌∷◌, leb, ◌&&◌,
  if◌then◌else◌, Error, panicked, Result, ok, err, ◌>>=◌,
}

pub record OAuthConfig : Type 0 where
  pub client_id : String
  pub client_secret : Option String
  pub redirect_uri : Option String
  pub scopes : List String
  pub base_url : String

pub record TokenSet : Type 0 where
  pub access_token : String
  pub refresh_token : Option String
  pub token_type : String
  pub scopes : List String
  pub expires_at : Option ℕ
  pub refresh_token_expires_at : Option ℕ

-- The deadline is `SystemTime::now() + skew`, which panics behind the last `SystemTime`, `max_time`.
unfoldable pub is_expiring_within : ℕ → TokenSet → ℕ → ℕ → Result Bool
is_expiring_within max_time t now skew = elim t.expires_at [
  | none ↦ ok false
  | some expires_at ↦
      if leb (now + skew) max_time then ok (leb expires_at (now + skew)) else err panicked
]

-- The seconds of a response, an `i64`.
pub data Seconds : Type 0 where
  ahead ago : ℕ → Seconds

pub record TokenResponse : Type 0 where
  pub access_token : String
  pub refresh_token : Option String
  pub token_type : String
  pub scope : List String
  pub expires_in : Option Seconds
  pub refresh_token_expires_in : Option Seconds

-- What `chrono` can hold: the last `DateTime`, the time before 1970 of the first, and the longest `Duration`.
pub record UtcBounds : Type 0 where
  pub max_utc : ℕ
  pub before_1970 : ℕ
  pub max_seconds : ℕ

-- `now + chrono::Duration::seconds(seconds)`, which panics where the duration or the time cannot be held.
unfoldable pub after_seconds : UtcBounds → ℕ → Option Seconds → Result (Option ℕ)
after_seconds b now none = ok none
after_seconds b now (some (ahead n)) =
    if leb n b.max_seconds && leb (now + n * 1000) b.max_utc
    then ok (some (now + n * 1000))
    else err panicked
after_seconds b now (some (ago n)) =
    if leb n b.max_seconds && leb (n * 1000) (now + b.before_1970)
    then ok (some (now - n * 1000))
    else err panicked

-- `into_token_set`; the words of `scope` are its `split_whitespace`.
unfoldable pub into_token_set : UtcBounds → TokenResponse → ℕ → Result TokenSet
into_token_set b r now = do
  expires_at ← after_seconds b now r.expires_in
  refresh_token_expires_at ← after_seconds b now r.refresh_token_expires_in
  ok (record {
    access_token = r.access_token;
    refresh_token = r.refresh_token;
    token_type = r.token_type;
    scopes = r.scope;
    expires_at = expires_at;
    refresh_token_expires_at = refresh_token_expires_at;
  })
