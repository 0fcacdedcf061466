-- ===== src/Cli/Given/Scopes.antt =====
-- `parse_scopes` gives scopes that it reads back alone.
use Prim.Native.Char.{Char, code}
use webex_headless_messenger.Common.{
  ◌≡◌, refl, ap, ◌∙◌, String, false, Bool-cases, inl, inr, List, [], ◌∷◌, ◌++◌, All,
}
use webex_headless_messenger.Common.Text.{is_blank}
use webex_headless_messenger.Cli.Auth.{
  parse_scopes, split_separators, trimmed_parts, is_separator, cons_part, trim_text_start,
  trim_text_end, is_empty_text,
}
use webex_headless_messenger.Cli.Given.Blank.{
  trim_text_end-trim_text_end, trim_text_start-trim_text_end,
}

abbrev pub IsScope : String → Type 0
IsScope scope = parse_scopes scope ≡ scope ∷ []

pub All-append {ℓ κ} :
    {A : Type ℓ} (P : A → Type κ) (xs ys : List A) → All P xs → All P ys → All P (xs ++ ys)
All-append P [] ys h k = k
All-append P (x ∷ xs) ys h k = (h.0, All-append P xs ys h.1 k)

-- A text without a character that splits it.
abbrev IsWhole : String → Type 0
IsWhole String.[] = Unit
IsWhole (String.◌∷◌ c s) = (is_separator (code c) ≡ false) × IsWhole s

cons_part-IsWhole :
    (c : Char) (parts : List String)
    → is_separator (code c) ≡ false
    → All IsWhole parts
    → All IsWhole (cons_part c parts)
cons_part-IsWhole c [] h k = ((h, tt), tt)
cons_part-IsWhole c (part ∷ parts) h k = ((h, k.0), k.1)

split_separators-IsWhole : (s : String) → All IsWhole (split_separators s)
unfolding split_separators
split_separators-IsWhole String.[] = (tt, tt)
split_separators-IsWhole (String.◌∷◌ c s) = elim (Bool-cases (is_separator (code c))) [
  | inl e ↦ rw e (tt, split_separators-IsWhole s)
  | inr e ↦ rw e (cons_part-IsWhole c (split_separators s) e (split_separators-IsWhole s))
]

split_separators-of_whole : (s : String) → IsWhole s → split_separators s ≡ s ∷ []
unfolding split_separators
split_separators-of_whole String.[] h = refl
split_separators-of_whole (String.◌∷◌ c s) h = rw (h.0, split_separators-of_whole s h.1) refl

trim_text_start-IsWhole : (s : String) → IsWhole s → IsWhole (trim_text_start s)
unfolding trim_text_start
trim_text_start-IsWhole String.[] h = tt
trim_text_start-IsWhole (String.◌∷◌ c s) h = elim (Bool-cases (is_blank (String.◌∷◌ c String.[]))) [
  | inl e ↦ rw e (trim_text_start-IsWhole s h.1)
  | inr e ↦ rw e h
]

trim_text_end-IsWhole : (s : String) → IsWhole s → IsWhole (trim_text_end s)
unfolding trim_text_end
trim_text_end-IsWhole String.[] h = tt
trim_text_end-IsWhole (String.◌∷◌ c s) h = elim (Bool-cases (is_blank (String.◌∷◌ c s))) [
  | inl e ↦ rw e tt
  | inr e ↦ rw e (h.0, trim_text_end-IsWhole s h.1)
]

-- A trimmed part that is not empty is a scope.
trimmed-IsScope :
    (part : String)
    → IsWhole part
    → is_empty_text (trim_text_end (trim_text_start part)) ≡ false
    → IsScope (trim_text_end (trim_text_start part))
unfolding parse_scopes trimmed_parts
trimmed-IsScope part whole h =
    let scope = trim_text_end (trim_text_start part) in
    let same : trim_text_end (trim_text_start scope) ≡ scope =
      ap trim_text_end (trim_text_start-trim_text_end part)
      ∙ trim_text_end-trim_text_end (trim_text_start part) in
    rw
      (
        split_separators-of_whole scope
            (trim_text_end-IsWhole (trim_text_start part) (trim_text_start-IsWhole part whole)),
        same,
        h,
      )
      refl

trimmed_parts-IsScope :
    (parts : List String) → All IsWhole parts → All IsScope (trimmed_parts parts)
unfolding trimmed_parts
trimmed_parts-IsScope [] h = tt
trimmed_parts-IsScope (part ∷ parts) h =
    elim (Bool-cases (is_empty_text (trim_text_end (trim_text_start part)))) [
      | inl e ↦ rw e (trimmed_parts-IsScope parts h.1)
      | inr e ↦ rw e (trimmed-IsScope part h.0 e, trimmed_parts-IsScope parts h.1)
    ]

pub parse_scopes-IsScope : (value : String) → All IsScope (parse_scopes value)
unfolding parse_scopes
parse_scopes-IsScope value =
    trimmed_parts-IsScope (split_separators value) (split_separators-IsWhole value)
