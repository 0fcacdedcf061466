-- ===== src/Common/Results.antt =====
-- src/error.rs: `Error` and `Result`. Each message text of `Error::Other` is a constructor of its own,
-- with the values that the text shows. `panicked` is no error of the source: it is the end of a call in a panic.
-- `cli` is an error of the command line, `CliError`, in a box.
use webex_headless_messenger.Common.Tests.{ℕ, ◌≡◌, refl, ◌⊎◌, inl, inr, String}

-- Why a number is not read: `std::num::IntErrorKind`.
pub data IntError : Type 0 where
  empty invalid_digit pos_overflow : IntError

-- src/bin/webex-headless.rs: the texts of `CliError`.
pub data CliError : Type 0 where
  missing required not_distinct not_ascii : String → CliError
  unknown_option unknown_subcommand : String → String → CliError
  unknown_command unexpected_argument : String → CliError
  bad_number : String → IntError → CliError
  one_target_only no_target one_body_only no_body same_paths : CliError
  two_auth_sources no_auth_source : CliError
  bind_unresolved bind_not_loopback token_required device_expired : CliError
  empty_client_secret_file : String → CliError
  connection_closed body_too_large headers_too_large : CliError
  no_request_line no_method no_path bad_content_length : CliError

pub data Error : Type 0 where
  http url json io api missing_token authorization_pending : Error
  cli : CliError → Error
  missing_access_token invalid_webhook_signature : Error
  room_poll : String → Error → Error
  client_secret_required : Error
  -- state.rs
  unsupported_version : ℕ → Error
  empty_message_id empty_attempt_id empty_checkpoint_id : Error
  invalid_record : ℕ → Error → Error
  bad_utf8 bad_json : Error
  lease_too_large expiry_overflow : Error
  lease_not_active : String → String → Error
  -- realtime.rs
  backlog_exceeded : ℕ → Error
  max_rooms_exceeded : ℕ → Error
  discovery_timed_out : ℕ → Error
  poll_timed_out : ℕ → Error
  panicked : Error

pub data Result {ℓ} (A : Type ℓ) : Type ℓ where
  ok : A → Result A
  err : Error → Result A

-- `Result::map_err`.
abbrev pub map_err {ℓ} : {A : Type ℓ} → (Error → Error) → Result A → Result A
map_err f (ok a) = ok a
map_err f (err e) = err (f e)

module _ {ℓ κ} {A : Type ℓ} {B : Type κ} where
  infixl 5 ◌>>=◌
  -- The `?` operator.
  abbrev pub ◌>>=◌ : Result A → (A → Result B) → Result B
  err e >>= rest = err e
  ok a >>= rest = rest a

  -- A result behind `?` came from one before it.
  pub >>=-eq-ok :
      (first : Result A) (rest : A → Result B) {b : B}
      → (first >>= rest) ≡ ok b
      → (a : A) × (first ≡ ok a) × (rest a ≡ ok b)
  >>=-eq-ok (err e) rest h = cc
  >>=-eq-ok (ok a) rest h = (a, refl, h)

module _ {κ} {B : Type κ} where
  infixl 5 ◌>>◌
  abbrev pub ◌>>◌ : Result (Unit {0}) → Result B → Result B
  check >> rest = check >>= (λ _. rest)

pub ok-injective {ℓ} : {A : Type ℓ} {a b : A} → ok a ≡ ok b → a ≡ b
ok-injective h = cc

pub err-ne-ok {ℓ} : {A : Type ℓ} {e : Error} {a : A} → ¬ (err e ≡ ok a)
err-ne-ok h = cc

pub Result-cases {ℓ} :
    {A : Type ℓ} (r : Result A) → ((a : A) × (r ≡ ok a)) ⊎ ((e : Error) × (r ≡ err e))
Result-cases (ok a) = inl (a, refl)
Result-cases (err e) = inr (e, refl)
