-- ===== src/Cli/Options/Kept.antt =====
-- What the steps of a loop over options keep, the loop keeps.
use webex_headless_messenger.Common.{
  ℕ, zero, suc, ◌≡◌, sym, ap, String, Bool-cases, Option, none, some, [], ◌∷◌, length, str_eq,
  Result, ok, ◌>>=◌, >>=-eq-ok, err-ne-ok, ok-injective, inl, inr,
}
use webex_headless_messenger.Cli.Cursor.{ArgCursor, take_flag, take_option}
use webex_headless_messenger.Cli.Options.{
  Step, flag, option, unknown, on_value, with_rest, options_loop, parse_options,
}

-- A step whose results satisfy `P` where what it starts from does.
abbrev pub Keeps : {A : Type 0} → (A → Type 0) → Step A → Type 0
Keeps {A = A} P step =
    (a : A) (c : ArgCursor) (b : A) (left : ArgCursor) → P a → step a c ≡ ok (b, left) → P b

module _ {A : Type 0} (P : A → Type 0) where
  kept : (p q : A × ArgCursor) → P p.0 → ok p ≡ ok q → P q.0
  kept p q h e = let same = ap (λ r. r.0) (ok-injective e) in rw (sym same) h

  pub unknown-Keeps : (command : String) → Keeps P (unknown command)
  unfolding unknown
  unknown-Keeps command a [] b left h e = kept (a, []) (b, left) h e
  unknown-Keeps command a (x ∷ c) b left h e = absurd (err-ne-ok e)

  pub flag-Keeps :
      (name : String) (set : A → A) (otherwise : Step A)
      → ((a : A) → P a → P (set a))
      → Keeps P otherwise
      → Keeps P (flag name set otherwise)
  unfolding flag take_flag
  flag-Keeps name set otherwise keeps others a [] b left h e = others a [] b left h e
  flag-Keeps name set otherwise keeps others a (x ∷ c) b left h e =
      elim (Bool-cases (str_eq x name)) [
        | inl t ↦ kept (set a, c) (b, left) (keeps a h) (rw t at e)
        | inr t ↦ others a (x ∷ c) b left h (rw t at e)
      ]

  on_value_kept :
      (set : String → A → Result A) (otherwise : Step A) (a : A) (taken : Option String × ArgCursor)
      (b : A) (left : ArgCursor)
      → ((v : String) (b : A) → set v a ≡ ok b → P b)
      → Keeps P otherwise
      → P a
      → on_value set otherwise a taken ≡ ok (b, left)
      → P b
  on_value_kept set otherwise a (none, c) b left keeps others h e = others a c b left h e
  on_value_kept set otherwise a (some v, c) b left keeps others h e =
      let (d, done, same) = >>=-eq-ok (set v a) (with_rest c) e in
      kept (d, c) (b, left) (keeps v d done) same

  pub option-Keeps :
      (name : String) (set : String → A → Result A) (otherwise : Step A)
      → ((v : String) (a b : A) → P a → set v a ≡ ok b → P b)
      → Keeps P otherwise
      → Keeps P (option name set otherwise)
  unfolding option
  option-Keeps name set otherwise keeps others a c b left h e =
      let (taken, _, rest) = >>=-eq-ok (take_option name c) (on_value set otherwise a) e in
      on_value_kept set otherwise a taken b left (λ v d. keeps v a d h) others h rest

  -- An option whose value is kept as it is.
  pub setter-Keeps :
      (name : String) (f : String → A → A) (otherwise : Step A)
      → ((v : String) (a : A) → P a → P (f v a))
      → Keeps P otherwise
      → Keeps P (option name (λ v a. ok (f v a)) otherwise)
  setter-Keeps name f otherwise keeps others =
      option-Keeps name (λ v a. ok (f v a)) otherwise
        (λ v a b h e. kept (f v a, []) (b, []) (keeps v a h) (ap (λ r. r >>= with_rest []) e))
        others

  loop_keeps :
      (step : Step A)
      → Keeps P step
      → (rounds : ℕ) (a b : A) (c : ArgCursor) → P a
      → options_loop rounds step a c ≡ ok b
      → P b
  unfolding options_loop
  loop_keeps step keeps rounds a b [] h e = rw (sym (ok-injective e)) h
  loop_keeps step keeps zero a b (x ∷ c) h e = rw (sym (ok-injective e)) h
  loop_keeps step keeps (suc rounds) a b (x ∷ c) h e =
      let ((d, left), done, rest) =
        >>=-eq-ok (step a (x ∷ c)) (λ (a', c'). options_loop rounds step a' c') e in
      loop_keeps step keeps rounds d b left (keeps a (x ∷ c) d left h done) rest

  pub parse_options-Keeps :
      (step : Step A)
      → Keeps P step
      → (a b : A) (c : ArgCursor) → P a
      → parse_options step a c ≡ ok b
      → P b
  unfolding parse_options
  parse_options-Keeps step keeps a b c = loop_keeps step keeps (length c) a b c
