-- ===== src/Cli/Given/Auth.antt =====
-- What `auth` gives.
use webex_headless_messenger.Common.{
  ◌≡◌, String, Bool-cases, str_eq, All, ok, inl, inr, sym, >>=-eq-ok, ok-injective, err-ne-ok,
}
use webex_headless_messenger.Cli.{AuthDeviceArgs, Command, auth_device, auth_refresh}
use webex_headless_messenger.Cli.Cursor.{required_next}
use webex_headless_messenger.Cli.Options.{parse_options}
use webex_headless_messenger.Cli.Cursor.{ArgCursor}
use webex_headless_messenger.Cli.Options.Kept.{
  Keeps, unknown-Keeps, flag-Keeps, option-Keeps, setter-Keeps, parse_options-Keeps,
}
use webex_headless_messenger.Cli.Words.{IsGiven}
use webex_headless_messenger.Cli.Given.Built.{built}
use webex_headless_messenger.Cli.Given.Scopes.{IsScope, parse_scopes-IsScope, All-append}
use webex_headless_messenger.Cli.Auth.{
  default_auth_device, auth_device_step, default_auth_refresh, auth_refresh_step, auth_command,
  parse_auth, parse_auth_device, parse_auth_refresh, parse_scopes, add_scopes,
}

abbrev HasScopes : AuthDeviceArgs → Type 0
HasScopes a = All IsScope a.scopes

scopes_kept :
    (v : String) (a b : AuthDeviceArgs) → HasScopes a → add_scopes v a ≡ ok b → HasScopes b
scopes_kept v a b h e =
    rw (sym (ok-injective e))
      (All-append IsScope a.scopes (parse_scopes v) h (parse_scopes-IsScope v))

auth_device_step-Keeps : Keeps HasScopes auth_device_step
auth_device_step-Keeps =
    flag-Keeps HasScopes _ _ _ (λ a h. h)
      (setter-Keeps HasScopes _ _ _ (λ v a h. h)
        (setter-Keeps HasScopes _ _ _ (λ v a h. h)
          (setter-Keeps HasScopes _ _ _ (λ v a h. h)
            (setter-Keeps HasScopes _ _ _ (λ v a h. h)
              (setter-Keeps HasScopes _ _ _ (λ v a h. h)
                (flag-Keeps HasScopes _ _ _ (λ a h. h)
                  (option-Keeps HasScopes _ _ _ scopes_kept
                    (option-Keeps HasScopes _ _ _ scopes_kept (unknown-Keeps HasScopes _)))))))))

auth_device-IsGiven : (c : ArgCursor) (cmd : Command) → parse_auth_device c ≡ ok cmd → IsGiven cmd
unfolding parse_auth_device
auth_device-IsGiven c cmd =
    built IsGiven (parse_options auth_device_step default_auth_device c) auth_device cmd (λ a read.
      parse_options-Keeps HasScopes auth_device_step auth_device_step-Keeps default_auth_device a c
        tt read)

auth_refresh-IsGiven : (c : ArgCursor) (cmd : Command) → parse_auth_refresh c ≡ ok cmd → IsGiven cmd
unfolding parse_auth_refresh
auth_refresh-IsGiven c cmd =
    built IsGiven (parse_options auth_refresh_step default_auth_refresh c) auth_refresh cmd
      (λ a read. tt)

auth_command-IsGiven :
    (p : String × ArgCursor) (cmd : Command) → auth_command p ≡ ok cmd → IsGiven cmd
unfolding auth_command
auth_command-IsGiven (subcommand, c) cmd e = elim (Bool-cases (str_eq subcommand "device")) [
  | inl n0 ↦ auth_device-IsGiven c cmd (rw n0 at e)
  | inr n0 ↦ elim (Bool-cases (str_eq subcommand "refresh")) [
    | inl n1 ↦ auth_refresh-IsGiven c cmd (rw (n0, n1) at e)
    | inr n1 ↦ absurd (err-ne-ok (rw (n0, n1) at e))
  ]
]

pub parse_auth-IsGiven : (c : ArgCursor) (cmd : Command) → parse_auth c ≡ ok cmd → IsGiven cmd
unfolding parse_auth
parse_auth-IsGiven c cmd e =
    let (p, _, rest) = >>=-eq-ok (required_next "auth subcommand" c) auth_command e in
    auth_command-IsGiven p cmd rest
