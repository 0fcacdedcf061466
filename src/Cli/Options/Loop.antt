-- ===== src/Cli/Options/Loop.antt =====
-- The loops over options in general: each takes as many rounds as it needs, and reads the words of an
-- option wherever they stand.
use webex_headless_messenger.Common.{
  ℕ, zero, suc, ◌≤◌, sym, ◌<◌, ◌≡◌, refl, ap, ◌∙◌, String, true, false, Bool, Bool-cases, Option,
  none, some, List, [], ◌∷◌, ◌++◌, length, arith, str_eq, Result, Result-cases, ok, ◌>>=◌,
  >>=-eq-ok, err-ne-ok, ok-injective, inl, inr,
}
use Prim.Native.String.{◌++◌ as ◌+++◌}
use mathlib.Core.List.{append-nil, append_assoc}
use webex_headless_messenger.Cli.Cursor.{
  ArgCursor, take_flag, take_option, required_next, next, strip_prefix, some_first,
}
use webex_headless_messenger.Cli.Options.{
  Step, flag, option, unknown, on_value, with_rest, options_loop, parse_options,
}

-- A step that takes an argument, whenever it does not fail.
abbrev pub Consumes : {A : Type 0} → Step A → Type 0
Consumes {A = A} step =
    (a : A) (x : String) (c : ArgCursor) (a' : A) (c' : ArgCursor)
    → step a (x ∷ c) ≡ ok (a', c')
    → length c' ≤ length c

pub unknown-Consumes : {A : Type 0} (command : String) → Consumes {A = A} (unknown command)
unfolding unknown
unknown-Consumes command a x c a' c' h = absurd (err-ne-ok h)

-- Two results that agree leave the same arguments.
same_rest : {A : Type 0} (p q : A × ArgCursor) → ok p ≡ ok q → p.1 ≡ q.1
same_rest p q h = ap (λ r. r.1) (ok-injective h)

pub flag-Consumes :
    {A : Type 0} (name : String) (set : A → A) (otherwise : Step A)
    → Consumes otherwise
    → Consumes (flag name set otherwise)
unfolding flag take_flag
flag-Consumes name set otherwise others a x c a' c' h = elim (Bool-cases (str_eq x name)) [
  | inl e ↦ (let same = same_rest (set a, c) (a', c') (rw e at h) in rw same omega arith)
  | inr e ↦ others a x c a' c' (rw e at h)
]

-- What `take_option` leaves: less where it finds the value, everything where it does not.
abbrev Leaves : ArgCursor → Option String × ArgCursor → Type 0
Leaves c (some v, c') = length c' < length c
Leaves c (none, c') = c' ≡ c

next-Leaves :
    (name x : String) (c : ArgCursor) (taken : Option String × ArgCursor)
    → (required_next name c >>= some_first) ≡ ok taken
    → Leaves (x ∷ c) taken
unfolding required_next next
next-Leaves name x [] taken h = absurd (err-ne-ok h)
next-Leaves name x (v ∷ c) taken h = rw (sym (ok-injective h)) omega arith

prefix-Leaves :
    (x : String) (c : ArgCursor) (o : Option String) (taken : Option String × ArgCursor)
    → (elim o [ some value ↦ ok (some value, c) | none ↦ ok (none, x ∷ c) ]) ≡ ok taken
    → Leaves (x ∷ c) taken
prefix-Leaves x c none taken h = rw (sym (ok-injective h)) refl
prefix-Leaves x c (some v) taken h = rw (sym (ok-injective h)) omega arith

take_option-Leaves :
    (name x : String) (c : ArgCursor) (taken : Option String × ArgCursor)
    → take_option name (x ∷ c) ≡ ok taken
    → Leaves (x ∷ c) taken
unfolding take_option
take_option-Leaves name x c taken h = elim (Bool-cases (str_eq x name)) [
  | inl e ↦ next-Leaves name x c taken (rw e at h)
  | inr e ↦ prefix-Leaves x c (strip_prefix (name +++ "=") x) taken (rw e at h)
]

option_rest :
    {A : Type 0} (set : String → A → Result A) (otherwise : Step A) (a : A) (x : String)
    (c : ArgCursor) (taken : Option String × ArgCursor) (a' : A) (c' : ArgCursor)
    → Consumes otherwise
    → Leaves (x ∷ c) taken
    → on_value set otherwise a taken ≡ ok (a', c')
    → length c' ≤ length c
option_rest set otherwise a x c (none, left) a' c' others leaves h =
    others a x c a' c' (rw leaves at h)
option_rest set otherwise a x c (some v, left) a' c' others leaves h =
    let (b, _, same) = >>=-eq-ok (set v a) (with_rest left) h in
    let eq = same_rest (b, left) (a', c') same in rw (sym eq) omega arith

pub option-Consumes :
    {A : Type 0} (name : String) (set : String → A → Result A) (otherwise : Step A)
    → Consumes otherwise
    → Consumes (option name set otherwise)
unfolding option
option-Consumes name set otherwise others a x c a' c' h =
    let (taken, found, rest) = >>=-eq-ok (take_option name (x ∷ c)) (on_value set otherwise a) h in
    option_rest set otherwise a x c taken a' c' others (take_option-Leaves name x c taken found)
      rest

-- More rounds than arguments change nothing.
options_loop_enough :
    {A : Type 0} (step : Step A)
    → Consumes step
    → (rounds more : ℕ) (a : A) (c : ArgCursor) → length c ≤ rounds
    → rounds ≤ more
    → options_loop more step a c ≡ options_loop rounds step a c
unfolding options_loop
options_loop_enough step consumes rounds more a [] h k = refl
options_loop_enough step consumes zero more a (x ∷ c) h k = absurd (omega arith)
options_loop_enough step consumes (suc rounds) zero a (x ∷ c) h k = absurd (omega arith)
options_loop_enough step consumes (suc rounds) (suc more) a (x ∷ c) h k =
    elim (Result-cases (step a (x ∷ c))) [
      | inl ((b, c'), e) ↦
          (let less = consumes a x c b c' e in
            rw e (options_loop_enough step consumes rounds more b c' (omega arith) (omega arith)))
      | inr (failed, e) ↦ rw e refl
    ]

-- The loop as the source writes it: a step, and the loop again on what it leaves.
pub parse_options_loop :
    {A : Type 0} (step : Step A)
    → Consumes step
    → (a : A) (x : String) (c : ArgCursor)
    → parse_options step a (x ∷ c) ≡ (step a (x ∷ c) >>= λ (a', c'). parse_options step a' c')
unfolding parse_options options_loop
parse_options_loop step consumes a x c = elim (Result-cases (step a (x ∷ c))) [
  | inl ((b, c'), e) ↦
      (let less = consumes a x c b c' e in
        rw e (options_loop_enough step consumes (length c') (length c) b c' (omega arith) less))
  | inr (failed, e) ↦ rw e refl
]

-- The words of a flag, and of an option with its value behind it.
abbrev pub flag_words : String → Bool → List String
flag_words name true = name ∷ []
flag_words name false = []

abbrev pub option_words : String → Option String → List String
option_words name (some value) = name ∷ value ∷ []
option_words name none = []

-- The loop reads `words` wherever they stand, and turns `a` into `b`.
pub record Reads {A : Type 0} (step : Step A) (a : A) (words : List String) (b : A) : Type 0 where
  pub reads : (rest : ArgCursor) → parse_options step a (words ++ rest) ≡ parse_options step b rest

infixr 20 ◌then◌
pub ◌then◌ :
    {A : Type 0} {step : Step A} {a b d : A} {v w : List String}
    → Reads step a v b
    → Reads step b w d
    → Reads step a (v ++ w) d
◌then◌ {v = v} {w = w} first second = record {
  reads = λ rest.
      ap (parse_options _ _) (append_assoc v w rest) ∙ first.reads (w ++ rest) ∙ second.reads rest;
}

pub Reads-parse_options :
    {A : Type 0} {step : Step A} {a b : A} {words : List String}
    → Reads step a words b
    → parse_options step a words ≡ ok b
unfolding parse_options options_loop
Reads-parse_options {words = words} r = ap (parse_options _ _) (sym (append-nil words)) ∙ r.reads []

module _ {A : Type 0} (step : Step A) (consumes : Consumes step) where
  pub Reads-flag :
      (name : String) (f : Bool → A)
      → ((rest : ArgCursor) → step (f false) (name ∷ rest) ≡ ok (f true, rest))
      → (is_set : Bool) → Reads step (f false) (flag_words name is_set) (f is_set)
  Reads-flag name f h true = record {
    reads = λ rest. rw (parse_options_loop step consumes (f false) name rest, h rest) refl;
  }
  Reads-flag name f h false = record { reads = λ rest. refl }

  pub Reads-value :
      (name value : String) (a b : A)
      → ((rest : ArgCursor) → step a (name ∷ value ∷ rest) ≡ ok (b, rest))
      → Reads step a (name ∷ value ∷ []) b
  Reads-value name value a b h = record {
    reads = λ rest. rw (parse_options_loop step consumes a name (value ∷ rest), h rest) refl;
  }

  pub Reads-option :
      (name : String) (f : Option String → A)
      → ((v : String) (rest : ArgCursor) → step (f none) (name ∷ v ∷ rest) ≡ ok (f (some v), rest))
      → (o : Option String) → Reads step (f none) (option_words name o) (f o)
  Reads-option name f h (some v) = Reads-value name v (f none) (f (some v)) (h v)
  Reads-option name f h none = record { reads = λ rest. refl }
