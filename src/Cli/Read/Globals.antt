-- ===== src/Cli/Read/Globals.antt =====
-- The loop of `Cli::parse` over the global options: it needs no more rounds than there are arguments.
use webex_headless_messenger.Common.{
  ℕ, ◌≡◌, refl, String, true, false, str_eq, Option, none, some, [], ◌∷◌, ◌++◌, Result, ok, ◌>>=◌,
  inl, inr,
}
use webex_headless_messenger.Cli.{GlobalOptions, Cli, default_global}
use webex_headless_messenger.Cli.Cursor.{
  take_flag, take_option, required_next, next, strip_prefix, starts_with_dash,
}
use webex_headless_messenger.Cli.Options.{flag, option}
use webex_headless_messenger.Cli.Options.Loop.{
  Consumes, option-Consumes, unknown-Consumes, option_words,
}
use webex_headless_messenger.Cli.Words.{global_words}
use mathlib.Core.List.{append_assoc}
use webex_headless_messenger.Common.{zero, suc, ◌≤◌, length, arith, ◌||◌, Result-cases}
use webex_headless_messenger.Cli.Cursor.{ArgCursor}
use webex_headless_messenger.Cli.Parse.{global_step, global_loop}

global_step-Consumes : Consumes global_step
global_step-Consumes = option-Consumes _ _ _ (
    option-Consumes _ _ _
      (option-Consumes _ _ _ (option-Consumes _ _ _ (option-Consumes _ _ _ (unknown-Consumes _)))))

global_loop_enough :
    (rounds more : ℕ) (g : GlobalOptions) (c : ArgCursor)
    → length c ≤ rounds
    → rounds ≤ more
    → global_loop more g c ≡ global_loop rounds g c
unfolding global_loop
global_loop_enough rounds more g [] h k = refl
global_loop_enough zero more g (x ∷ c) h k = absurd (omega arith)
global_loop_enough (suc rounds) zero g (x ∷ c) h k = absurd (omega arith)
global_loop_enough (suc rounds) (suc more) g (x ∷ c) h k =
    elim (Result-cases (global_step g (x ∷ c))) [
      | inl ((b, c'), e) ↦
          (let less = global_step-Consumes g x c b c' e in
            rw e (rw (global_loop_enough rounds more b c' (omega arith) (omega arith)) refl))
      | inr (failed, e) ↦ rw e refl
    ]

-- The loop from given global options on.
unfoldable pub parse_from : GlobalOptions → ArgCursor → Result Cli
parse_from g c = global_loop (length c) g c

-- A round over a global option: the loop goes on with what the option leaves.
pub parse_from-global_step :
    (g : GlobalOptions) (x : String) (c : ArgCursor)
    → starts_with_dash x ≡ true
    → (str_eq x "--help" || str_eq x "-h") ≡ false
    → parse_from g (x ∷ c) ≡ (global_step g (x ∷ c) >>= λ (g', c'). parse_from g' c')
unfolding parse_from global_loop
parse_from-global_step g x c dash h = elim (Result-cases (global_step g (x ∷ c))) [
  | inl ((b, c'), e) ↦
      (let less = global_step-Consumes g x c b c' e in
        rw (dash, h, e) (global_loop_enough (length c') (length c) b c' (omega arith) less))
  | inr (failed, e) ↦ rw (dash, h, e) refl
]

-- The words of a global option, in front of what follows them.
pub parse_from-option_words :
    (name : String) (f : Option String → GlobalOptions)
    → starts_with_dash name ≡ true
    → (str_eq name "--help" || str_eq name "-h") ≡ false
    → ((v : String) (rest : ArgCursor)
        → global_step (f none) (name ∷ v ∷ rest) ≡ ok (f (some v), rest))
    → (o : Option String) (rest : ArgCursor)
    → parse_from (f none) (option_words name o ++ rest) ≡ parse_from (f o) rest
parse_from-option_words name f dash h reads none rest = refl
parse_from-option_words name f dash h reads (some v) rest =
    rw (parse_from-global_step (f none) name (v ∷ rest) dash h, reads v rest) refl

pub parse_from-global_words :
    (g : GlobalOptions) (rest : ArgCursor)
    → parse_from default_global (global_words g ++ rest) ≡ parse_from g rest
unfolding flag option take_flag take_option required_next next strip_prefix global_words
    starts_with_dash
parse_from-global_words g rest =
    rw
      (
        append_assoc (option_words "--access-token" g.access_token) _ rest,
        parse_from-option_words "--access-token" (λ o. record default_global { access_token = o })
            refl refl (λ v r. refl) g.access_token _,
        append_assoc (option_words "--token-file" g.token_file) _ rest,
        parse_from-option_words "--token-file"
            (λ o. record default_global { access_token = g.access_token; token_file = o }) refl refl
            (λ v r. refl) g.token_file _,
        append_assoc (option_words "--client-id" g.client_id) _ rest,
        parse_from-option_words "--client-id"
            (λ o. record default_global {
              access_token = g.access_token;
              token_file = g.token_file;
              client_id = o;
            })
            refl refl (λ v r. refl) g.client_id _,
        append_assoc (option_words "--client-secret" g.client_secret) _ rest,
        parse_from-option_words "--client-secret"
            (λ o. record default_global {
              access_token = g.access_token;
              token_file = g.token_file;
              client_id = g.client_id;
              client_secret = o;
            })
            refl refl (λ v r. refl) g.client_secret _,
        parse_from-option_words "--client-secret-file"
            (λ o. record default_global {
              access_token = g.access_token;
              token_file = g.token_file;
              client_id = g.client_id;
              client_secret = g.client_secret;
              client_secret_file = o;
            })
            refl refl (λ v r. refl) g.client_secret_file _,
      )
      refl
