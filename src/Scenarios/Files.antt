-- ===== src/Scenarios/Files.antt =====
-- Files for tokens.
use webex_headless_messenger.Common.{
  ◌≡◌, refl, true, false, Option, some, none, [], ◌∷◌, ok, err, cli, not_distinct,
}
use webex_headless_messenger.Common.Text.{codes}
use webex_headless_messenger.Sidecar.Lines.{to_ascii_lowercase, lower, text_eq}
use webex_headless_messenger.Cli.Paths.{
  FilePath, cur_dir, parent_dir, normal, push_lexical_component, lexical_loop,
  lexical_absolute_path, folded_components, ascii_case_fold_path_components, starts_with,
  path_components_overlap, paths_overlap_for_token_output, auth_path_has_non_ascii,
  canonical_existing_ancestor_path, resolve_loop, resolve_component, canonical_parent_paths_overlap,
  ensure_distinct_auth_paths, ensure_distinct_auth_file_paths,
}
use webex_headless_messenger.Cli.Paths.Places.{LieApart, ensure_distinct_auth_file_paths-LieApart}

abbrev home : FilePath
home = record { has_root = true; components = normal (codes "home") ∷ [] }

-- "tokens.json" and "./cache/../Tokens.json".
abbrev tokens : FilePath
tokens = record { has_root = false; components = normal (codes "tokens.json") ∷ [] }

abbrev same_tokens : FilePath
same_tokens = record {
  has_root = false;
  components = cur_dir ∷ normal (codes "cache") ∷ parent_dir ∷ normal (codes "Tokens.json") ∷ [];
}

abbrev secret : FilePath
secret = record {
  has_root = true;
  components = normal (codes "run") ∷ normal (codes "secret") ∷ [];
}

-- A file system that knows none of the paths.
abbrev unknown_path : FilePath → Option FilePath
unknown_path path = none

same_file :
    ensure_distinct_auth_file_paths (ok home) unknown_path (some tokens) (some same_tokens) none
    ≡ err (cli (not_distinct "--token-file and --access-token-file must differ"))
unfolding ensure_distinct_auth_file_paths ensure_distinct_auth_paths
    canonical_existing_ancestor_path resolve_loop resolve_component canonical_parent_paths_overlap
    auth_path_has_non_ascii paths_overlap_for_token_output path_components_overlap starts_with
    ascii_case_fold_path_components folded_components to_ascii_lowercase lower text_eq
    lexical_absolute_path lexical_loop push_lexical_component
same_file = refl

other_files :
    ensure_distinct_auth_file_paths (ok home) unknown_path (some tokens) none (some secret) ≡ ok tt
unfolding ensure_distinct_auth_file_paths ensure_distinct_auth_paths
    canonical_existing_ancestor_path resolve_loop resolve_component canonical_parent_paths_overlap
    auth_path_has_non_ascii paths_overlap_for_token_output path_components_overlap starts_with
    ascii_case_fold_path_components folded_components to_ascii_lowercase lower text_eq
    lexical_absolute_path lexical_loop push_lexical_component
other_files = refl

ensure_distinct_auth_file_paths-LieApart_example :
    LieApart (codes "home" ∷ []) unknown_path (some tokens) none
    × LieApart (codes "home" ∷ []) unknown_path (some tokens) (some secret)
    × LieApart (codes "home" ∷ []) unknown_path none (some secret)
ensure_distinct_auth_file_paths-LieApart_example =
    ensure_distinct_auth_file_paths-LieApart (codes "home" ∷ []) unknown_path (some tokens) none
      (some secret) other_files
