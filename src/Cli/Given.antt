-- ===== src/Cli/Given.antt =====
-- What src/bin/webex-headless.rs reads from any command line is a command within the bounds of `IsGiven`.
mod Built
mod Blank
mod Scopes
mod Rooms
mod Auth
mod Messages
mod Polling
use webex_headless_messenger.Common.{
  ℕ, zero, suc, ◌≡◌, sym, ap, String, ◌||◌, Bool-cases, inl, inr, [], ◌∷◌, length, str_eq, Result,
  ok, err, ◌>>=◌, >>=-eq-ok, ok-injective, err-ne-ok, if◌then◌else◌,
}
use webex_headless_messenger.Cli.{Cli, GlobalOptions, Command, help, me, default_global}
use webex_headless_messenger.Cli.Cursor.{ArgCursor, finish, starts_with_dash}
use webex_headless_messenger.Cli.Parse.{
  parse, parse_command, global_loop, global_step, with_command,
}
use webex_headless_messenger.Cli.Words.{IsGiven, words}
use webex_headless_messenger.Cli.Read.{parse-words}
use Built.{built}
use Rooms.{parse_rooms-IsGiven}
use Auth.{parse_auth-IsGiven}
use Messages.{parse_messages-IsGiven}
use Polling.{parse_poll-IsGiven, parse_sidecar-IsGiven}

help-IsGiven : (cmd : Command) → ok help ≡ ok cmd → IsGiven cmd
help-IsGiven cmd e = rw (sym (ok-injective e)) tt

parse_command-IsGiven : (c : ArgCursor) (cmd : Command) → parse_command c ≡ ok cmd → IsGiven cmd
unfolding parse_command
parse_command-IsGiven [] cmd e = help-IsGiven cmd e
parse_command-IsGiven (command ∷ c) cmd e = elim (Bool-cases (str_eq command "auth")) [
  | inl n0 ↦ parse_auth-IsGiven c cmd (rw n0 at e)
  | inr n0 ↦ elim (Bool-cases (str_eq command "me")) [
    | inl n1 ↦ built IsGiven (finish c) (λ _. me) cmd (λ _ _. tt) (rw (n0, n1) at e)
    | inr n1 ↦ elim (Bool-cases (str_eq command "rooms")) [
      | inl n2 ↦ parse_rooms-IsGiven c cmd (rw (n0, n1, n2) at e)
      | inr n2 ↦ elim (Bool-cases (str_eq command "messages")) [
        | inl n3 ↦ parse_messages-IsGiven c cmd (rw (n0, n1, n2, n3) at e)
        | inr n3 ↦ elim (Bool-cases (str_eq command "poll")) [
          | inl n4 ↦ parse_poll-IsGiven c cmd (rw (n0, n1, n2, n3, n4) at e)
          | inr n4 ↦ elim (Bool-cases (str_eq command "sidecar")) [
            | inl n5 ↦ parse_sidecar-IsGiven c cmd (rw (n0, n1, n2, n3, n4, n5) at e)
            | inr n5 ↦ elim (Bool-cases (str_eq command "--help" || str_eq command "-h")) [
              | inl t ↦ help-IsGiven cmd (rw (n0, n1, n2, n3, n4, n5, t) at e)
              | inr t ↦ absurd (err-ne-ok (rw (n0, n1, n2, n3, n4, n5, t) at e))
            ]
          ]
        ]
      ]
    ]
  ]
]

with_command-IsGiven :
    (g : GlobalOptions) (cmd : Command) (cli : Cli)
    → IsGiven cmd
    → with_command g cmd ≡ ok cli
    → IsGiven cli.command
with_command-IsGiven g cmd cli h e = rw (ap (λ r. r.command) (sym (ok-injective e))) h

global_loop-IsGiven :
    (rounds : ℕ) (g : GlobalOptions) (c : ArgCursor) (cli : Cli)
    → global_loop rounds g c ≡ ok cli
    → IsGiven cli.command
unfolding global_loop
global_loop-IsGiven rounds g [] cli e = with_command-IsGiven g help cli tt e
global_loop-IsGiven zero g (x ∷ c) cli e = with_command-IsGiven g help cli tt e
global_loop-IsGiven (suc rounds) g (x ∷ c) cli e = elim (Bool-cases (starts_with_dash x)) [
  | inl d ↦ elim (Bool-cases (str_eq x "--help" || str_eq x "-h")) [
    | inl h ↦ with_command-IsGiven g help cli tt (rw (d, h) at e)
    | inr h ↦
        (let ((g', c'), _, rest) =
            >>=-eq-ok (global_step g (x ∷ c)) (λ (g', c'). global_loop rounds g' c')
              (rw (d, h) at e) in
          global_loop-IsGiven rounds g' c' cli rest)
  ]
  | inr d ↦
      (let (cmd, read, same) = >>=-eq-ok (parse_command (x ∷ c)) (with_command g) (rw d at e) in
        with_command-IsGiven g cmd cli (parse_command-IsGiven (x ∷ c) cmd read) same)
]

-- Whatever the arguments are, a command that `parse` returns is within its bounds: a page size below 2^16,
-- an interval and a number of events below 2^64, one person for direct messages, two different paths for the
-- receiver, and scopes that are not empty, are trimmed and have no separator, so that each is read as itself.
pub parse-IsGiven : (args : ArgCursor) (cli : Cli) → parse args ≡ ok cli → IsGiven cli.command
unfolding parse
parse-IsGiven args = global_loop-IsGiven (length args) default_global args
