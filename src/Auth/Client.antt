-- ===== src/Auth/Client.antt =====
-- src/auth.rs: the requests of `OAuthClient`. The server is an argument: what it answers to a form that is
-- posted to an endpoint.
use webex_headless_messenger.Common.{
  ℕ, String, Option, none, some, List, [], ◌∷◌, ◌++◌, client_secret_required, Result, ok, err,
  ◌>>=◌,
}
use webex_headless_messenger.Auth.{OAuthConfig, TokenSet, TokenResponse, UtcBounds, into_token_set}

abbrev pub Form : Type 0
Form = List (String × String)

abbrev pub form_option : String → Option String → Form
form_option name none = []
form_option name (some value) = (name, value) ∷ []

-- The form once there is a client secret.
abbrev pub code_form : OAuthConfig → String → Option String → String → Form
code_form config code code_verifier client_secret =
    ("grant_type", "authorization_code")
    ∷ ("client_id", config.client_id)
    ∷ ("code", code)
    ∷ ("client_secret", client_secret)
    ∷ (form_option "redirect_uri" config.redirect_uri ++ form_option "code_verifier" code_verifier)

unfoldable pub authorization_code_form : OAuthConfig → String → Option String → Result Form
authorization_code_form config code code_verifier = elim config.client_secret [
  | none ↦ err client_secret_required
  | some client_secret ↦ ok (code_form config code code_verifier client_secret)
]

abbrev pub refresh_form : OAuthConfig → String → String → Form
refresh_form config refresh_token client_secret =
    ("grant_type", "refresh_token")
    ∷ ("client_id", config.client_id)
    ∷ ("refresh_token", refresh_token)
    ∷ ("client_secret", client_secret)
    ∷ []

module _ (post : String → Form → Result TokenResponse) (bounds : UtcBounds) (now : ℕ) where
  -- `post_token_form`, with the decoding of the response in `post`.
  unfoldable pub post_token_form : String → Form → Result TokenSet
  post_token_form path form = post path form >>= λ response. into_token_set bounds response now

  unfoldable pub exchange_authorization_code : OAuthConfig → String → Result TokenSet
  exchange_authorization_code config code =
      authorization_code_form config code none >>= post_token_form "access_token"

  unfoldable pub exchange_authorization_code_with_pkce :
      OAuthConfig → String → String → Result TokenSet
  exchange_authorization_code_with_pkce config code code_verifier =
      authorization_code_form config code (some code_verifier) >>= post_token_form "access_token"

  unfoldable pub refresh_token : OAuthConfig → String → Result TokenSet
  refresh_token config old_refresh_token = elim config.client_secret [
    | none ↦ err client_secret_required
    | some client_secret ↦
        post_token_form "access_token" (refresh_form config old_refresh_token client_secret)
  ]
