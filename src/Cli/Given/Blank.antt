-- ===== src/Cli/Given/Blank.antt =====
-- Blank texts and trimming, character by character.
use Prim.Native.Char.{Char, code}
use mathlib.Core.List.{reverse-cons}
use webex_headless_messenger.Common.{
  ℕ, ◌≡◌, ◌≢◌, Bool, refl, sym, ap, ◌∙◌, String, true, false, Bool-cases, inl, inr, List, [], ◌∷◌,
  ◌++◌, reverse,
}
use webex_headless_messenger.Common.Text.{codes, trim, trim_start, is_whitespace, is_blank}
use webex_headless_messenger.Cli.Auth.{trim_text_start, trim_text_end}

trim_start-append : (cs : List ℕ) (c : ℕ) → is_whitespace c ≡ false → trim_start (cs ++ c ∷ []) ≢ []
unfolding trim_start
trim_start-append [] c h e = cc (rw h at e)
trim_start-append (d ∷ cs) c h e = elim (Bool-cases (is_whitespace d)) [
  | inl w ↦ trim_start-append cs c h (rw w at e)
  | inr w ↦ cc (rw w at e)
]

trim_start-ws : (c : ℕ) (cs : List ℕ) → is_whitespace c ≡ true → trim_start (c ∷ cs) ≡ trim_start cs
unfolding trim_start
trim_start-ws c cs h = rw h refl

trim_start-other : (c : ℕ) (cs : List ℕ) → is_whitespace c ≡ false → trim_start (c ∷ cs) ≡ c ∷ cs
unfolding trim_start
trim_start-other c cs h = rw h refl

abbrev is_nil : List ℕ → Bool
is_nil cs = elim cs [ [] ↦ true | _ ∷ _ ↦ false ]

is_nil-append : (cs ds : List ℕ) → ds ≢ [] → is_nil (cs ++ ds) ≡ false
is_nil-append [] [] h = absurd (h refl)
is_nil-append [] (d ∷ ds) h = refl
is_nil-append (c ∷ cs) ds h = refl

is_nil-reverse : (cs : List ℕ) → cs ≢ [] → is_nil (reverse cs) ≡ false
is_nil-reverse [] h = absurd (h refl)
is_nil-reverse (c ∷ cs) h = rw (reverse-cons c cs) (is_nil-append (reverse cs) (c ∷ []) (λ e. cc e))

trim-ws : (c : ℕ) (cs : List ℕ) → is_whitespace c ≡ true → trim (c ∷ cs) ≡ trim cs
unfolding trim
trim-ws c cs h = ap (λ t. reverse (trim_start (reverse t))) (trim_start-ws c cs h)

trim-other : (c : ℕ) (cs : List ℕ) → is_whitespace c ≡ false → is_nil (trim (c ∷ cs)) ≡ false
unfolding trim
trim-other c cs h =
    ap (λ t. is_nil (reverse (trim_start (reverse t)))) (trim_start-other c cs h)
    ∙ ap (λ t. is_nil (reverse (trim_start t))) (reverse-cons c cs)
    ∙ is_nil-reverse (trim_start (reverse cs ++ c ∷ [])) (trim_start-append (reverse cs) c h)

pub is_blank-ws :
    (c : Char) (s : String) → is_whitespace (code c) ≡ true → is_blank (String.◌∷◌ c s) ≡ is_blank s
unfolding is_blank
is_blank-ws c s h = ap is_nil (trim-ws (code c) (codes s) h)

pub is_blank-other :
    (c : Char) (s : String) → is_whitespace (code c) ≡ false → is_blank (String.◌∷◌ c s) ≡ false
unfolding is_blank
is_blank-other c s h = trim-other (code c) (codes s) h

-- A character in front of texts that are blank alike.
is_blank-cons :
    (c : Char) (s t : String)
    → is_blank s ≡ is_blank t
    → is_blank (String.◌∷◌ c s) ≡ is_blank (String.◌∷◌ c t)
is_blank-cons c s t h = elim (Bool-cases (is_whitespace (code c))) [
  | inl w ↦ is_blank-ws c s w ∙ h ∙ sym (is_blank-ws c t w)
  | inr w ↦ is_blank-other c s w ∙ sym (is_blank-other c t w)
]

-- The end is trimmed where the text goes on being blank.
end_blank :
    (c : Char) (s : String)
    → is_blank (String.◌∷◌ c s) ≡ true
    → trim_text_end (String.◌∷◌ c s) ≡ String.[]
unfolding trim_text_end
end_blank c s h = rw h refl

end_other :
    (c : Char) (s : String)
    → is_blank (String.◌∷◌ c s) ≡ false
    → trim_text_end (String.◌∷◌ c s) ≡ String.◌∷◌ c (trim_text_end s)
unfolding trim_text_end
end_other c s h = rw h refl

blank_empty : is_blank String.[] ≡ true
unfolding is_blank
blank_empty = refl

start_ws :
    (c : Char) (s : String)
    → is_whitespace (code c) ≡ true
    → trim_text_start (String.◌∷◌ c s) ≡ trim_text_start s
unfolding trim_text_start
start_ws c s h = rw (is_blank-ws c String.[] h ∙ blank_empty) refl

start_other :
    (c : Char) (s : String)
    → is_whitespace (code c) ≡ false
    → trim_text_start (String.◌∷◌ c s) ≡ String.◌∷◌ c s
unfolding trim_text_start
start_other c s h = rw (is_blank-other c String.[] h) refl

is_blank-trim_text_end : (s : String) → is_blank (trim_text_end s) ≡ is_blank s
unfolding trim_text_end
is_blank-trim_text_end String.[] = refl
is_blank-trim_text_end (String.◌∷◌ c s) = elim (Bool-cases (is_blank (String.◌∷◌ c s))) [
  | inl b ↦ ap is_blank (end_blank c s b) ∙ blank_empty ∙ sym b
  | inr b ↦
      ap is_blank (end_other c s b) ∙ is_blank-cons c (trim_text_end s) s (is_blank-trim_text_end s)
]

pub trim_text_end-trim_text_end : (s : String) → trim_text_end (trim_text_end s) ≡ trim_text_end s
unfolding trim_text_end
trim_text_end-trim_text_end String.[] = refl
trim_text_end-trim_text_end (String.◌∷◌ c s) = elim (Bool-cases (is_blank (String.◌∷◌ c s))) [
  | inl b ↦ ap trim_text_end (end_blank c s b) ∙ sym (end_blank c s b)
  | inr b ↦
      ap trim_text_end (end_other c s b)
      ∙ end_other c (trim_text_end s)
          (is_blank-cons c (trim_text_end s) s (is_blank-trim_text_end s) ∙ b)
      ∙ ap (String.◌∷◌ c) (trim_text_end-trim_text_end s)
      ∙ sym (end_other c s b)
]

-- What starts with a character that is not blank still does when its end is trimmed.
pub trim_text_start-trim_text_end :
    (s : String)
    → trim_text_start (trim_text_end (trim_text_start s)) ≡ trim_text_end (trim_text_start s)
unfolding trim_text_start trim_text_end
trim_text_start-trim_text_end String.[] = refl
trim_text_start-trim_text_end (String.◌∷◌ c s) = elim (Bool-cases (is_whitespace (code c))) [
  | inl w ↦
      ap (λ t. trim_text_start (trim_text_end t)) (start_ws c s w)
      ∙ trim_text_start-trim_text_end s
      ∙ ap trim_text_end (sym (start_ws c s w))
  | inr w ↦
      (let trimmed = ap trim_text_end (start_other c s w) ∙ end_other c s (is_blank-other c s w) in
        ap trim_text_start trimmed ∙ start_other c (trim_text_end s) w ∙ sym trimmed)
]
