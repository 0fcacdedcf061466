-- ===== src/Cli/Paths/Places.antt =====
-- The places of the file tree that the paths of src/bin/webex-headless.rs stand for, as far as the paths' own
-- text says.
use mathlib.Core.Path.{subst}
use mathlib.Core.List.{append_assoc, append-nil, reverse-cons, reverse-reverse}
use webex_headless_messenger.Common.{
  ℕ, ◌+◌, ◌≤◌, ◌≡◌, ◌⊎◌, refl, sym, ap, ◌∙◌, arith, inl, inr, true, Bool-cases, Option, none, some,
  List, [], ◌∷◌, ◌++◌, map, reverse, ok, if◌then◌else◌, ok-injective,
}
use webex_headless_messenger.Sidecar.{Text}
use webex_headless_messenger.Sidecar.Lines.{lower, to_ascii_lowercase}
use webex_headless_messenger.Cli.Paths.{
  Component, cur_dir, parent_dir, normal, FilePath, push_lexical_component, lexical_loop,
  lexical_absolute_path, folded_components, ascii_case_fold_path_components,
  ensure_distinct_auth_file_paths,
}
use webex_headless_messenger.Cli.Paths.Apart.{
  IsUnder, BothApart, ensure_distinct_auth_file_paths_apart,
}

-- A place is given by the names that lead to it from the root, the last one first.
abbrev pub Place : Type 0
Place = List Text

-- Where a walk from a place ends. The parent of the root is the root.
abbrev pub walk : Place → List Component → Place
walk place [] = place
walk place (cur_dir ∷ components) = walk place components
walk [] (parent_dir ∷ components) = walk [] components
walk (name ∷ place) (parent_dir ∷ components) = walk place components
walk place (normal name ∷ components) = walk (name ∷ place) components

-- One letter is the other's capital.
abbrev pub IsCapitalOf : ℕ → ℕ → Type 0
IsCapitalOf c d = (b'A' ≤ c) × (c ≤ b'Z') × (d ≡ c + 32)

abbrev pub SameLetter : ℕ → ℕ → Type 0
SameLetter c d = (c ≡ d) ⊎ (IsCapitalOf c d ⊎ IsCapitalOf d c)

-- The names are equal up to the case of ASCII letters.
abbrev pub SameName : Text → Text → Type 0
SameName [] [] = Unit
SameName [] (d ∷ t) = ⊥
SameName (c ∷ s) [] = ⊥
SameName (c ∷ s) (d ∷ t) = SameLetter c d × SameName s t

abbrev pub SamePlace : Place → Place → Type 0
SamePlace [] [] = Unit
SamePlace [] (n ∷ q) = ⊥
SamePlace (m ∷ p) [] = ⊥
SamePlace (m ∷ p) (n ∷ q) = SameName m n × SamePlace p q

-- A place is another one, or lies somewhere in its subtree.
pub data LiesUnder : Place → Place → Type 0 where
  here : (p q : Place) → SamePlace p q → LiesUnder p q
  below : (name : Text) (p q : Place) → LiesUnder p q → LiesUnder (name ∷ p) q

SameLetter-lower : (c d : ℕ) → SameLetter c d → lower c ≡ lower d
unfolding lower
SameLetter-lower c d (inl same) = rw same refl
SameLetter-lower c d (inr (inl (low, high, up))) = ground arith
SameLetter-lower c d (inr (inr (low, high, up))) = ground arith

SameName-lowercase : (s t : Text) → SameName s t → to_ascii_lowercase s ≡ to_ascii_lowercase t
unfolding to_ascii_lowercase
SameName-lowercase [] [] h = refl
SameName-lowercase [] (d ∷ t) h = absurd h
SameName-lowercase (c ∷ s) [] h = absurd h
SameName-lowercase (c ∷ s) (d ∷ t) h =
    let first = SameLetter-lower c d h.0 in let rest = SameName-lowercase s t h.1 in cc

folded-append :
    (xs ys : List Component)
    → folded_components (xs ++ ys) ≡ folded_components xs ++ folded_components ys
unfolding folded_components
folded-append [] ys = refl
folded-append (x ∷ xs) ys = rw (folded-append xs ys) refl

-- The components of a place from the root on.
abbrev components_of : Place → List Component
components_of place = reverse (map normal place)

folded-below :
    (name : Text) (place : Place)
    → folded_components (components_of (name ∷ place))
      ≡ folded_components (components_of place) ++ to_ascii_lowercase name ∷ []
unfolding folded_components
folded-below name place =
    ap folded_components (reverse-cons (normal name) (map normal place))
    ∙ folded-append (components_of place) (normal name ∷ [])

SamePlace-folded :
    (p q : Place)
    → SamePlace p q
    → folded_components (components_of p) ≡ folded_components (components_of q)
SamePlace-folded [] [] h = refl
SamePlace-folded [] (n ∷ q) h = absurd h
SamePlace-folded (m ∷ p) [] h = absurd h
SamePlace-folded (m ∷ p) (n ∷ q) h =
    let first = SameName-lowercase m n h.0 in
    let rest = SamePlace-folded p q h.1 in
    let left = folded-below m p in let right = folded-below n q in cc

LiesUnder-folded :
    (p q : Place)
    → LiesUnder p q
    → (rest : List Text) × (folded_components (components_of p)
        ≡ folded_components (components_of q) ++ rest)
LiesUnder-folded p q (here _ _ same) =
    ([], SamePlace-folded p q same ∙ sym (append-nil (folded_components (components_of q))))
LiesUnder-folded (name ∷ p) q (below _ _ _ under) =
    let (rest, e) = LiesUnder-folded p q under in
    (
      rest ++ to_ascii_lowercase name ∷ [],
      folded-below name p
          ∙ ap (λ x. x ++ to_ascii_lowercase name ∷ []) e
          ∙ append_assoc (folded_components (components_of q)) rest (to_ascii_lowercase name ∷ []),
    )

lexical_loop-walk :
    (place : Place) (components : List Component)
    → lexical_loop true (map normal place) components ≡ map normal (walk place components)
unfolding lexical_loop push_lexical_component
lexical_loop-walk place [] = refl
lexical_loop-walk place (cur_dir ∷ components) = lexical_loop-walk place components
lexical_loop-walk [] (parent_dir ∷ components) = lexical_loop-walk [] components
lexical_loop-walk (name ∷ place) (parent_dir ∷ components) = lexical_loop-walk place components
lexical_loop-walk place (normal name ∷ components) = lexical_loop-walk (name ∷ place) components

abbrev pub path_to : Place → FilePath
path_to place = record { has_root = true; components = components_of place }

IsUnder-of_LiesUnder : (p q : Place) → LiesUnder p q → IsUnder (path_to p) (path_to q)
unfolding ascii_case_fold_path_components
IsUnder-of_LiesUnder p q h =
    let (rest, e) = LiesUnder-folded p q h in (rest, ap (λ x. (b'/' ∷ []) ∷ x) e)

module _ (cwd : Place) (canonicalize : FilePath → Option FilePath) where
  -- The place of a path, a relative one from the current directory on.
  abbrev pub place_of : FilePath → Place
  place_of path = walk (if path.has_root then [] else cwd) path.components

  lexical_absolute_path-place :
      (path : FilePath)
      → lexical_absolute_path (ok (path_to cwd)) path ≡ ok (path_to (place_of path))
  unfolding lexical_absolute_path
  lexical_absolute_path-place path = elim (Bool-cases path.has_root) [
    | inl rooted ↦ rw rooted (
        ap (λ x. ok (record { has_root = true; components = reverse x }))
          (lexical_loop-walk [] path.components))
    | inr relative ↦ rw relative (
        rw (reverse-reverse (map normal cwd)) (
          ap (λ x. ok (record { has_root = true; components = reverse x }))
            (lexical_loop-walk cwd path.components)))
  ]

  -- Neither file is the other or lies under it.
  abbrev pub LieApart : Option FilePath → Option FilePath → Type 0
  LieApart (some left) (some right) =
      (¬ LiesUnder (place_of left) (place_of right))
      × (¬ LiesUnder (place_of right) (place_of left))
  LieApart none right = Unit
  LieApart (some left) none = Unit

  BothApart-LieApart :
      (left right : Option FilePath)
      → BothApart (ok (path_to cwd)) canonicalize left right
      → LieApart left right
  BothApart-LieApart (some left) (some right) h =
      let l = ok-injective (sym (lexical_absolute_path-place left) ∙ h.is_left) in
      let r = ok-injective (sym (lexical_absolute_path-place right) ∙ h.is_right) in
      (
        λ under.
            (subst (λ x. ¬ IsUnder x (path_to (place_of right))) (sym l)
                (subst (λ x. ¬ IsUnder h.left_path x) (sym r) h.left_outside))
              (IsUnder-of_LiesUnder (place_of left) (place_of right) under),
        λ under.
            (subst (λ x. ¬ IsUnder x (path_to (place_of left))) (sym r)
                (subst (λ x. ¬ IsUnder h.right_path x) (sym l) h.right_outside))
              (IsUnder-of_LiesUnder (place_of right) (place_of left) under),
      )
  BothApart-LieApart none right h = tt
  BothApart-LieApart (some left) none h = tt

  -- Let the files of the tokens, of the access token and of the client secret be accepted in a current
  -- directory, whatever `canonicalize` answers. Then of any two of them that are given, neither is the other
  -- or lies under it, where each path is walked from the root or from the current directory as its text says,
  -- without links, and names count as equal up to the case of ASCII letters.
  pub ensure_distinct_auth_file_paths-LieApart :
      (token_file access_token_file client_secret_file : Option FilePath)
      → ensure_distinct_auth_file_paths
          (ok (path_to cwd))
          canonicalize
          token_file
          access_token_file
          client_secret_file
        ≡ ok tt
      → LieApart token_file access_token_file
        × LieApart token_file client_secret_file
        × LieApart access_token_file client_secret_file
  ensure_distinct_auth_file_paths-LieApart token_file access_token_file client_secret_file h =
      let (one, two, three) =
        ensure_distinct_auth_file_paths_apart (ok (path_to cwd)) canonicalize token_file
          access_token_file client_secret_file h in
      (
        BothApart-LieApart token_file access_token_file one,
        BothApart-LieApart token_file client_secret_file two,
        BothApart-LieApart access_token_file client_secret_file three,
      )
