-- ===== src/Cli/Read/Auth.antt =====
-- `auth device` and `auth refresh`.
use webex_headless_messenger.Common.{
  ◌≡◌, refl, ◌∙◌, sym, String, false, List, [], ◌∷◌, ◌++◌, All, ok, if◌then◌else◌,
}
use webex_headless_messenger.Cli.{AuthDeviceArgs, AuthRefreshArgs, auth_device, auth_refresh}
use webex_headless_messenger.Cli.Cursor.{take_flag, take_option, required_next, next, strip_prefix}
use webex_headless_messenger.Cli.Options.{flag, option}
use webex_headless_messenger.Cli.Options.Loop.{
  Consumes, flag-Consumes, option-Consumes, unknown-Consumes, Reads, ◌then◌, Reads-flag,
  Reads-option, Reads-value, Reads-parse_options,
}
use webex_headless_messenger.Cli.Words.{scope_words, auth_device_words, auth_refresh_words}
use mathlib.Core.List.{append-nil, append_assoc}
use webex_headless_messenger.Cli.Auth.{
  default_auth_device, auth_device_step, default_auth_refresh, auth_refresh_step, auth_command,
  parse_auth, parse_auth_device, parse_auth_refresh, parse_scopes,
}

auth_device_step-Consumes : Consumes auth_device_step
auth_device_step-Consumes = flag-Consumes _ _ _ (
    option-Consumes _ _ _ (
      option-Consumes _ _ _ (
        option-Consumes _ _ _ (
          option-Consumes _ _ _ (
            option-Consumes _ _ _ (
              flag-Consumes _ _ _
                (option-Consumes _ _ _ (option-Consumes _ _ _ (unknown-Consumes _)))))))))

auth_refresh_step-Consumes : Consumes auth_refresh_step
auth_refresh_step-Consumes = option-Consumes _ _ _ (
    option-Consumes _ _ _ (
      option-Consumes _ _ _
        (option-Consumes _ _ _ (option-Consumes _ _ _ (flag-Consumes _ _ _ (unknown-Consumes _))))))

Reads-scope_words :
    (a : AuthDeviceArgs) (scopes all_scopes : List String)
    → All (λ scope. parse_scopes scope ≡ scope ∷ []) scopes
    → a.scopes ++ scopes ≡ all_scopes
    → Reads auth_device_step a (scope_words scopes) (record a { scopes = all_scopes })
unfolding flag option take_flag take_option required_next next strip_prefix
Reads-scope_words a [] all_scopes h e = record {
  reads = λ rest. rw (sym e, append-nil a.scopes) refl;
}
Reads-scope_words a (scope ∷ scopes) all_scopes h e =
    Reads-value auth_device_step auth_device_step-Consumes "--scope" scope a
      (record a { scopes = a.scopes ++ scope ∷ [] }) (λ rest. rw h.0 refl)
    then Reads-scope_words (record a { scopes = a.scopes ++ scope ∷ [] }) scopes all_scopes h.1
        (append_assoc a.scopes (scope ∷ []) scopes ∙ e)

Reads-auth_device_words :
    (a : AuthDeviceArgs)
    → All (λ scope. parse_scopes scope ≡ scope ∷ []) a.scopes
    → Reads auth_device_step default_auth_device (auth_device_words a) a
unfolding flag option take_flag take_option required_next next strip_prefix auth_device_words
Reads-auth_device_words a h =
    Reads-option auth_device_step auth_device_step-Consumes "--client-id"
      (λ o. record default_auth_device { client_id = o }) (λ v rest. refl) a.client_id
    then Reads-option auth_device_step auth_device_step-Consumes "--client-secret"
        (λ o. record default_auth_device { client_id = a.client_id; client_secret = o })
        (λ v rest. refl) a.client_secret
    then Reads-option auth_device_step auth_device_step-Consumes "--client-secret-file"
        (λ o. record default_auth_device {
          client_id = a.client_id;
          client_secret = a.client_secret;
          client_secret_file = o;
        })
        (λ v rest. refl) a.client_secret_file
    then Reads-option auth_device_step auth_device_step-Consumes "--token-file"
        (λ o. record default_auth_device {
          client_id = a.client_id;
          client_secret = a.client_secret;
          client_secret_file = a.client_secret_file;
          token_file = o;
        })
        (λ v rest. refl) a.token_file
    then Reads-option auth_device_step auth_device_step-Consumes "--access-token-file"
        (λ o. record default_auth_device {
          client_id = a.client_id;
          client_secret = a.client_secret;
          client_secret_file = a.client_secret_file;
          token_file = a.token_file;
          access_token_file = o;
        })
        (λ v rest. refl) a.access_token_file
    then Reads-flag auth_device_step auth_device_step-Consumes "--access-token-file-group-readable"
        (λ o. record default_auth_device {
          client_id = a.client_id;
          client_secret = a.client_secret;
          client_secret_file = a.client_secret_file;
          token_file = a.token_file;
          access_token_file = a.access_token_file;
          access_token_file_group_readable = o;
        })
        (λ rest. refl) a.access_token_file_group_readable
    then Reads-scope_words (record a { scopes = []; stdout_token = false }) a.scopes a.scopes h refl
    then Reads-flag auth_device_step auth_device_step-Consumes "--stdout-token"
        (λ b. record a { stdout_token = b }) (λ rest. refl) a.stdout_token

Reads-auth_refresh_words :
    (a : AuthRefreshArgs) → Reads auth_refresh_step default_auth_refresh (auth_refresh_words a) a
unfolding flag option take_flag take_option required_next next strip_prefix auth_refresh_words
Reads-auth_refresh_words a =
    Reads-option auth_refresh_step auth_refresh_step-Consumes "--client-id"
      (λ o. record default_auth_refresh { client_id = o }) (λ v rest. refl) a.client_id
    then Reads-option auth_refresh_step auth_refresh_step-Consumes "--client-secret"
        (λ o. record default_auth_refresh { client_id = a.client_id; client_secret = o })
        (λ v rest. refl) a.client_secret
    then Reads-option auth_refresh_step auth_refresh_step-Consumes "--client-secret-file"
        (λ o. record default_auth_refresh {
          client_id = a.client_id;
          client_secret = a.client_secret;
          client_secret_file = o;
        })
        (λ v rest. refl) a.client_secret_file
    then Reads-option auth_refresh_step auth_refresh_step-Consumes "--token-file"
        (λ o. record default_auth_refresh {
          client_id = a.client_id;
          client_secret = a.client_secret;
          client_secret_file = a.client_secret_file;
          token_file = o;
        })
        (λ v rest. refl) a.token_file
    then Reads-option auth_refresh_step auth_refresh_step-Consumes "--access-token-file"
        (λ o. record default_auth_refresh {
          client_id = a.client_id;
          client_secret = a.client_secret;
          client_secret_file = a.client_secret_file;
          token_file = a.token_file;
          access_token_file = o;
        })
        (λ v rest. refl) a.access_token_file
    then Reads-flag auth_refresh_step auth_refresh_step-Consumes
        "--access-token-file-group-readable"
        (λ o. record default_auth_refresh {
          client_id = a.client_id;
          client_secret = a.client_secret;
          client_secret_file = a.client_secret_file;
          token_file = a.token_file;
          access_token_file = a.access_token_file;
          access_token_file_group_readable = o;
        })
        (λ rest. refl) a.access_token_file_group_readable

pub parse_auth-device :
    (a : AuthDeviceArgs)
    → All (λ scope. parse_scopes scope ≡ scope ∷ []) a.scopes
    → parse_auth ("device" ∷ auth_device_words a) ≡ ok (auth_device a)
unfolding parse_auth auth_command parse_auth_device required_next next
parse_auth-device a h = rw (Reads-parse_options (Reads-auth_device_words a h)) refl

pub parse_auth-refresh :
    (a : AuthRefreshArgs) → parse_auth ("refresh" ∷ auth_refresh_words a) ≡ ok (auth_refresh a)
unfolding parse_auth auth_command parse_auth_refresh required_next next
parse_auth-refresh a = rw (Reads-parse_options (Reads-auth_refresh_words a)) refl
