-- ===== src/Cli/Given/Built.antt =====
-- Commands that are built from what a loop reads.
use webex_headless_messenger.Common.{
  ℕ, ◌^◌, ◌<◌, ◌≡◌, String, Option, Result, ok, ◌>>=◌, sym, >>=-eq-ok, ok-injective,
}
use webex_headless_messenger.Cli.{Command}
use webex_headless_messenger.Cli.Options.{required_value}
use webex_headless_messenger.Cli.Numbers.{parse_u16}
use webex_headless_messenger.Cli.Numbers.Range.{parse_u16_bound}
use webex_headless_messenger.Cli.Words.{IsGiven}

module _ {A B : Type 0} (P : B → Type 0) where
  -- A result is what its last part makes of the parts before it.
  pub built :
      (first : Result A) (f : A → B) (b : B)
      → ((a : A) → first ≡ ok a → P (f a))
      → (first >>= λ a. ok (f a)) ≡ ok b
      → P b
  built first f b given e =
      let (a, read, same) = >>=-eq-ok first (λ a. ok (f a)) e in
      rw (sym (ok-injective same)) (given a read)

-- A required value leads to a command that is always given.
pub required-IsGiven :
    (first : Result (Option String)) (name : String) (f : String → Command) (cmd : Command)
    → ((v : String) → IsGiven (f v))
    → (first >>= λ o. required_value o name >>= λ v. ok (f v)) ≡ ok cmd
    → IsGiven cmd
required-IsGiven first name f cmd given e =
    let (o, _, rest) = >>=-eq-ok first (λ o. required_value o name >>= λ v. ok (f v)) e in
    built IsGiven (required_value o name) f cmd (λ v _. given v) rest

-- The option `--max`.
pub max_kept :
    {A : Type 0} (P : A → Type 0) (f : ℕ → A) (v : String) (b : A)
    → ((n : ℕ) → n < 2 ^ 16 → P (f n))
    → (parse_u16 "--max" v >>= λ n. ok (f n)) ≡ ok b
    → P b
max_kept P f v b fits =
    built P (parse_u16 "--max" v) f b (λ n read. fits n (parse_u16_bound "--max" v n read))
