-- ===== src/Cli/Paths/Apart.antt =====
-- What the tests of the files of src/bin/webex-headless.rs leave.
use webex_headless_messenger.Common.{
  ◌≡◌, refl, String, true, false, ◌||◌, Bool-cases, inl, inr, Option, none, some, List, [], ◌∷◌,
  ◌++◌, arith, Result, ok, ◌>>=◌, >>=-eq-ok, err-ne-ok,
}
use webex_headless_messenger.Sidecar.{Text}
use webex_headless_messenger.Sidecar.Handler.Access.{text_eq_refl}
use webex_headless_messenger.Cli.Paths.{
  FilePath, lexical_absolute_path, ascii_case_fold_path_components, starts_with,
  path_components_overlap, paths_overlap_for_token_output, auth_path_has_non_ascii, check_absolute,
  ensure_distinct_auth_paths, ensure_both, ensure_distinct_auth_file_paths,
}

-- A path is another one or lies under it, up to the case of ASCII letters.
abbrev pub IsUnder : FilePath → FilePath → Type 0
IsUnder path ancestor =
    (rest : List Text) × (ascii_case_fold_path_components path
      ≡ ascii_case_fold_path_components ancestor ++ rest)

starts_with-append : (prefix rest : List Text) → starts_with (prefix ++ rest) prefix ≡ true
unfolding starts_with
starts_with-append [] rest = refl
starts_with-append (x ∷ prefix) rest = rw (text_eq_refl x, starts_with-append prefix rest) refl

IsUnder-overlap : (p q : FilePath) → IsUnder p q → path_components_overlap p q ≡ true
unfolding path_components_overlap
IsUnder-overlap p q (rest, same) =
    rw same (starts_with-append (ascii_case_fold_path_components q) rest)

module _ (current_dir : Result FilePath) (canonicalize : FilePath → Option FilePath) where
  -- Neither absolute path lies under the other.
  pub record AreApart (left right : FilePath) : Type 0 where
    pub left_path : FilePath
    pub right_path : FilePath
    pub is_left : lexical_absolute_path current_dir left ≡ ok left_path
    pub is_right : lexical_absolute_path current_dir right ≡ ok right_path
    pub left_outside : ¬ IsUnder left_path right_path
    pub right_outside : ¬ IsUnder right_path left_path

  check_absolute_ok :
      (left right : FilePath) (non_ascii equivalent : String) (l r : FilePath)
      → check_absolute current_dir canonicalize left right non_ascii equivalent l r ≡ ok tt
      → paths_overlap_for_token_output l r ≡ false
  check_absolute_ok left right non_ascii equivalent l r h =
      elim (Bool-cases (auth_path_has_non_ascii l || auth_path_has_non_ascii r)) [
        | inl strange ↦ absurd (err-ne-ok (rw strange at h))
        | inr plain ↦ elim (Bool-cases (paths_overlap_for_token_output l r)) [
          | inl overlap ↦ absurd (err-ne-ok (rw (plain, overlap) at h))
          | inr apart ↦ apart
        ]
      ]

  no_overlap :
      (l r : FilePath)
      → paths_overlap_for_token_output l r ≡ false
      → (¬ IsUnder l r) × (¬ IsUnder r l)
  unfolding paths_overlap_for_token_output
  no_overlap l r h = (
    λ u. let e = IsUnder-overlap l r u in cc (rw e at h),
    λ u. let e = IsUnder-overlap r l u in ground arith,
  )

  ensure-AreApart :
      (left right : FilePath) (non_ascii equivalent : String)
      → ensure_distinct_auth_paths current_dir canonicalize left right non_ascii equivalent ≡ ok tt
      → AreApart left right
  unfolding ensure_distinct_auth_paths
  ensure-AreApart left right non_ascii equivalent h =
      let check = check_absolute current_dir canonicalize left right non_ascii equivalent in
      let (l, found_l, rest) =
        >>=-eq-ok (lexical_absolute_path current_dir left)
          (λ l. lexical_absolute_path current_dir right >>= λ r. check l r) h in
      let (r, found_r, last) =
        >>=-eq-ok (lexical_absolute_path current_dir right) (λ r. check l r) rest in
      let apart = check_absolute_ok left right non_ascii equivalent l r last in
      let (left_out, right_out) = no_overlap l r apart in
      record {
        left_path = l;
        right_path = r;
        is_left = found_l;
        is_right = found_r;
        left_outside = left_out;
        right_outside = right_out;
      }

  -- The same of two files, where both are given.
  abbrev pub BothApart : Option FilePath → Option FilePath → Type 0
  BothApart (some left) (some right) = AreApart left right
  BothApart none right = Unit
  BothApart (some left) none = Unit

  ensure_both-BothApart :
      (left right : Option FilePath) (non_ascii equivalent : String)
      → ensure_both current_dir canonicalize left right non_ascii equivalent ≡ ok tt
      → BothApart left right
  ensure_both-BothApart (some left) (some right) non_ascii equivalent h =
      ensure-AreApart left right non_ascii equivalent h
  ensure_both-BothApart none right non_ascii equivalent h = tt
  ensure_both-BothApart (some left) none non_ascii equivalent h = tt

  pub ensure_distinct_auth_file_paths_apart :
      (token_file access_token_file client_secret_file : Option FilePath)
      → ensure_distinct_auth_file_paths current_dir canonicalize token_file access_token_file
          client_secret_file
        ≡ ok tt
      → BothApart token_file access_token_file
        × BothApart token_file client_secret_file
        × BothApart access_token_file client_secret_file
  unfolding ensure_distinct_auth_file_paths
  ensure_distinct_auth_file_paths_apart token_file access_token_file client_secret_file h =
      let ensure = ensure_both current_dir canonicalize in
      let (_, one, rest) = >>=-eq-ok (ensure token_file access_token_file _ _) _ h in
      let (_, two, three) = >>=-eq-ok (ensure token_file client_secret_file _ _) _ rest in
      (
        ensure_both-BothApart token_file access_token_file _ _ one,
        ensure_both-BothApart token_file client_secret_file _ _ two,
        ensure_both-BothApart access_token_file client_secret_file _ _ three,
      )
