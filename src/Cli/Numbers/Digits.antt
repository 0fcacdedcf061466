-- ===== src/Cli/Numbers/Digits.antt =====
-- Reading back the numbers that `format!` prints.
use Prim.Native.String.{◌++◌ as ◌+++◌}
use Prim.Native.Char.{code}
use text.Mathlib.TextLemmas.{nil-append, cons-append}
use webex_headless_messenger.Common.{
  ℕ, zero, suc, ◌+◌, ◌-◌, ◌*◌, ◌/◌, ◌%◌, ◌^◌, ◌≤◌, ◌<◌, ◌≡◌, refl, ap, ◌∙◌, ◌≢◌, String, List, [],
  ◌∷◌, ◌++◌, arith, ltb, false, Bool-cases, lt→ltb, ◌⊎◌, inl, inr, ok,
}
use webex_headless_messenger.Common.Text.{codes, display_digits, display_u64, digit}
use webex_headless_messenger.Cli.Numbers.{
  number, parse_digits, parse_unsigned, parse_u16, parse_u64, parse_usize,
}

codes-append : (s t : String) → codes (s +++ t) ≡ codes s ++ codes t
codes-append String.[] t = rw (nil-append t) refl
codes-append (String.◌∷◌ c s) t = rw (cons-append c s t) (ap (◌∷◌ (code c)) (codes-append s t))

-- One more digit at the end.
parse_digits-append :
    (max_value acc k c : ℕ) (cs : List ℕ)
    → parse_digits max_value acc cs ≡ number k
    → 48 ≤ c
    → c ≤ 57
    → k * 10 + (c - 48) ≤ max_value
    → parse_digits max_value acc (cs ++ c ∷ []) ≡ number (k * 10 + (c - 48))
unfolding parse_digits
parse_digits-append max_value acc k c [] h lo hi fits = ground arith
parse_digits-append max_value acc k c (d ∷ cs) h lo hi fits =
    let more = parse_digits-append max_value (acc * 10 + (d - 48)) k c cs in ground arith

le→ltb : (n : ℕ) → 10 ≤ n → ltb n 10 ≡ false
le→ltb n h = ground arith

Nat-cases : (n : ℕ) → n < 10 ⊎ 10 ≤ n
Nat-cases n = elim (Bool-cases (ltb n 10)) [
  | inl e ↦ inl (ground arith)
  | inr e ↦ inr (ground arith)
]

codes-digit : (n : ℕ) → n < 10 → codes (digit n) ≡ (48 + n) ∷ []
codes-digit zero h = refl
codes-digit (suc zero) h = refl
codes-digit (suc (suc zero)) h = refl
codes-digit (suc (suc (suc zero))) h = refl
codes-digit (suc (suc (suc (suc zero)))) h = refl
codes-digit (suc (suc (suc (suc (suc zero))))) h = refl
codes-digit (suc (suc (suc (suc (suc (suc zero)))))) h = refl
codes-digit (suc (suc (suc (suc (suc (suc (suc zero))))))) h = refl
codes-digit (suc (suc (suc (suc (suc (suc (suc (suc zero)))))))) h = refl
codes-digit (suc (suc (suc (suc (suc (suc (suc (suc (suc zero))))))))) h = refl
codes-digit (suc (suc (suc (suc (suc (suc (suc (suc (suc (suc n)))))))))) h = absurd (omega arith)

-- The two cases of a number's digits.
display_digits_one : (f n : ℕ) → n < 10 → codes (display_digits (suc f) n) ≡ (48 + n) ∷ []
unfolding display_digits
display_digits_one f n h = rw (lt→ltb n 10 h) (codes-digit n h)

display_digits_more :
    (f n : ℕ)
    → 10 ≤ n
    → codes (display_digits (suc f) n) ≡ codes (display_digits f (n / 10)) ++ (48 + n % 10) ∷ []
unfolding display_digits
display_digits_more f n h = rw (le→ltb n h) (
    codes-append (display_digits f (n / 10)) (digit (n % 10))
    ∙ ap (◌++◌ (codes (display_digits f (n / 10)))) (codes-digit (n % 10) (omega arith)))

parse_digits-display_digits :
    (max_value f n : ℕ)
    → n < 10 ^ f
    → n ≤ max_value
    → parse_digits max_value 0 (codes (display_digits f n)) ≡ number n
unfolding parse_digits display_digits
parse_digits-display_digits max_value zero n small fits = ap number (omega arith)
parse_digits-display_digits max_value (suc f) n small fits = elim (Nat-cases n) [
  | inl e ↦ rw (display_digits_one f n e) ground arith
  | inr e ↦
      (let rest = parse_digits-display_digits max_value f (n / 10) (omega arith) (omega arith) in
        rw (display_digits_more f n e) (
          parse_digits-append max_value 0 (n / 10) (48 + n % 10) (codes (display_digits f (n / 10)))
            rest (omega arith) (omega arith) (omega arith)
          ∙ ap number (omega arith)))
]

parse_unsigned_of_digits :
    (max_value n : ℕ) (cs : List ℕ)
    → cs ≢ []
    → parse_digits max_value 0 cs ≡ number n
    → parse_unsigned max_value cs ≡ number n
unfolding parse_digits parse_unsigned
parse_unsigned_of_digits max_value n [] h k = absurd (h refl)
parse_unsigned_of_digits max_value n (c ∷ []) h k = ground arith
parse_unsigned_of_digits max_value n (c ∷ d ∷ cs) h k = ground arith

cons-ne-nil : {c : ℕ} {cs : List ℕ} → ¬ (c ∷ cs ≡ [])
cons-ne-nil h = cc

append-ne-nil : (cs : List ℕ) (c : ℕ) → ¬ (cs ++ c ∷ [] ≡ [])
append-ne-nil [] c h = cc
append-ne-nil (d ∷ cs) c h = cc

display_u64-nonempty : (n : ℕ) → codes (display_u64 n) ≢ []
unfolding display_u64
display_u64-nonempty n h = elim (Nat-cases n) [
  | inl e ↦ cons-ne-nil (rw (display_digits_one 19 n e) at h)
  | inr e ↦
      append-ne-nil (codes (display_digits 19 (n / 10))) (48 + n % 10)
        (rw (display_digits_more 19 n e) at h)
]

-- `str::parse` of what `format!` prints, up to the largest number that fits.
parse_unsigned-display_u64 :
    (max_value n : ℕ)
    → n ≤ max_value
    → max_value < 10 ^ 20
    → parse_unsigned max_value (codes (display_u64 n)) ≡ number n
unfolding display_u64
parse_unsigned-display_u64 max_value n fits small =
    parse_unsigned_of_digits max_value n (codes (display_digits 20 n)) (display_u64-nonempty n)
      (parse_digits-display_digits max_value 20 n (omega arith) fits)

pub parse_u16-display_u64 :
    (name : String) (n : ℕ) → n < 2 ^ 16 → parse_u16 name (display_u64 n) ≡ ok n
unfolding parse_u16
parse_u16-display_u64 name n h =
    rw (parse_unsigned-display_u64 (2 ^ 16 - 1) n (omega arith) (omega arith)) refl

pub parse_u64-display_u64 :
    (name : String) (n : ℕ) → n < 2 ^ 64 → parse_u64 name (display_u64 n) ≡ ok n
unfolding parse_u64
parse_u64-display_u64 name n h =
    rw (parse_unsigned-display_u64 (2 ^ 64 - 1) n (omega arith) (omega arith)) refl

pub parse_usize-display_u64 :
    (name : String) (n : ℕ) → n < 2 ^ 64 → parse_usize name (display_u64 n) ≡ ok n
unfolding parse_usize
parse_usize-display_u64 name n h =
    rw (parse_unsigned-display_u64 (2 ^ 64 - 1) n (omega arith) (omega arith)) refl
