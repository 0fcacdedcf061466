-- ===== src/Sidecar/Request/Found.antt =====
-- `find_bytes` of src/bin/webex-headless.rs, on bytes that go on.
use webex_headless_messenger.Common.{
  ℕ, suc, ◌+◌, ◌≤◌, ◌≡◌, refl, sym, ap, ◌∙◌, true, false, Bool-cases, inl, inr, Option, none, some,
  List, [], ◌∷◌, ◌++◌, length, arith,
}
use webex_headless_messenger.Sidecar.Request.{window_eq, find_bytes, one_later}

window_eq-length :
    (bytes needle : List ℕ) → window_eq bytes needle ≡ true → length needle ≤ length bytes
unfolding window_eq
window_eq-length bytes [] h = omega arith
window_eq-length [] (n ∷ needle) h = cc
window_eq-length (b ∷ bytes) (n ∷ needle) h =
    let rest = window_eq-length bytes needle in ground arith

window_eq-append :
    (bytes more needle : List ℕ)
    → length needle ≤ length bytes
    → window_eq (bytes ++ more) needle ≡ window_eq bytes needle
unfolding window_eq
window_eq-append bytes more [] h = refl
window_eq-append [] more (n ∷ needle) h = absurd (omega arith)
window_eq-append (b ∷ bytes) more (n ∷ needle) h =
    rw (window_eq-append bytes more needle (omega arith)) refl

one_later-some :
    (o : Option ℕ) (i : ℕ) → one_later o ≡ some i → (j : ℕ) × (o ≡ some j) × (i ≡ suc j)
one_later-some none i h = cc
one_later-some (some j) i h = (j, refl, cc)

-- The two cases of a step.
find_here :
    (b : ℕ) (bytes needle : List ℕ)
    → window_eq (b ∷ bytes) needle ≡ true
    → find_bytes (b ∷ bytes) needle ≡ some 0
unfolding find_bytes
find_here b bytes needle w = rw (w, find_bytes) refl

find_later :
    (b : ℕ) (bytes needle : List ℕ)
    → window_eq (b ∷ bytes) needle ≡ false
    → find_bytes (b ∷ bytes) needle ≡ one_later (find_bytes bytes needle)
unfolding find_bytes
find_later b bytes needle w = rw (w, find_bytes) refl

find_bytes_nil : (needle : List ℕ) → find_bytes [] needle ≡ none
unfolding find_bytes
find_bytes_nil needle = refl

pub find_bytes_bound :
    (bytes needle : List ℕ) (i : ℕ)
    → find_bytes bytes needle ≡ some i
    → i + length needle ≤ length bytes
find_bytes_bound [] needle i h = let nothing = find_bytes_nil needle in cc
find_bytes_bound (b ∷ bytes) needle i h = elim (Bool-cases (window_eq (b ∷ bytes) needle)) [
  | inl w ↦
      (let here = find_here b bytes needle w in
        let fits = window_eq-length (b ∷ bytes) needle w in let same : i ≡ 0 = cc in omega arith)
  | inr w ↦
      (let (j, found, same) =
          one_later-some (find_bytes bytes needle) i (sym (find_later b bytes needle w) ∙ h) in
        let fits = find_bytes_bound bytes needle j found in omega arith)
]

-- What is found is found in front of more bytes.
pub find_bytes-append :
    (bytes more needle : List ℕ) (i : ℕ)
    → find_bytes bytes needle ≡ some i
    → find_bytes (bytes ++ more) needle ≡ some i
find_bytes-append [] more needle i h = let nothing = find_bytes_nil needle in cc
find_bytes-append (b ∷ bytes) more needle i h = elim (Bool-cases (window_eq (b ∷ bytes) needle)) [
  | inl w ↦
      (let fits = window_eq-length (b ∷ bytes) needle w in
        find_here b (bytes ++ more) needle (window_eq-append (b ∷ bytes) more needle fits ∙ w)
        ∙ sym (find_here b bytes needle w)
        ∙ h)
  | inr w ↦
      (let (j, found, same) =
          one_later-some (find_bytes bytes needle) i (sym (find_later b bytes needle w) ∙ h) in
        let fits = find_bytes_bound bytes needle j found in
        find_later b (bytes ++ more) needle
          (window_eq-append (b ∷ bytes) more needle (omega arith) ∙ w)
        ∙ ap one_later (find_bytes-append bytes more needle j found)
        ∙ ap some (sym same))
]

-- What is found within the first bytes is found there.
pub find_bytes-of_append :
    (bytes more needle : List ℕ) (i : ℕ)
    → find_bytes (bytes ++ more) needle ≡ some i
    → 1 ≤ length needle
    → i + length needle ≤ length bytes
    → find_bytes bytes needle ≡ some i
find_bytes-of_append [] more needle i h k fits = absurd (omega arith)
find_bytes-of_append (b ∷ bytes) more needle i h k fits =
    elim (Bool-cases (window_eq (b ∷ bytes) needle)) [
      | inl w ↦
          (let long = window_eq-length (b ∷ bytes) needle w in
            find_here b bytes needle w
            ∙ sym (
                find_here b (bytes ++ more) needle
                  (window_eq-append (b ∷ bytes) more needle long ∙ w))
            ∙ h)
      | inr w ↦
          (let (j, found, same) = one_later-some (find_bytes (bytes ++ more) needle) i (
              sym (
                find_later b (bytes ++ more) needle
                  (window_eq-append (b ∷ bytes) more needle (omega arith) ∙ w))
              ∙ h) in
            find_later b bytes needle w
            ∙ ap one_later (find_bytes-of_append bytes more needle j found k (omega arith))
            ∙ ap some (sym same))
    ]
