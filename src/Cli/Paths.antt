-- ===== src/Cli/Paths.antt =====
-- src/bin/webex-headless.rs: the check that the files of tokens and of the client secret differ. A path is
-- given by its components; the current directory and `std::fs::canonicalize` are parameters.
pub mod Apart
pub mod Places
use webex_headless_messenger.Common.{
  ℕ, String, Bool, true, false, ◌&&◌, ◌||◌, not, Option, none, some, List, [], ◌∷◌, map, reverse,
  ltb, leb, if◌then◌else◌, Error, cli, not_ascii, not_distinct, Result, ok, err, ◌>>=◌, ◌>>◌,
}
use webex_headless_messenger.Sidecar.{Text}
use webex_headless_messenger.Sidecar.Lines.{to_ascii_lowercase, text_eq}

pub data Component : Type 0 where
  cur_dir parent_dir : Component
  normal : Text → Component

pub record FilePath : Type 0 where
  pub has_root : Bool
  pub components : List Component

-- `PathBuf::push` and `pop` on the components from the last one on.
unfoldable pub push_lexical_component : Bool → List Component → Component → List Component
push_lexical_component has_root path cur_dir = path
push_lexical_component has_root [] parent_dir = if has_root then [] else parent_dir ∷ []
push_lexical_component has_root (last ∷ path) parent_dir = path
push_lexical_component has_root path (normal name) = normal name ∷ path

unfoldable pub lexical_loop : Bool → List Component → List Component → List Component
lexical_loop has_root path [] = path
lexical_loop has_root path (component ∷ components) =
    lexical_loop has_root (push_lexical_component has_root path component) components

abbrev pub from_base : FilePath → FilePath → FilePath
from_base base path = record {
  has_root = base.has_root;
  components = reverse (lexical_loop base.has_root (reverse base.components) path.components);
}

abbrev root : FilePath
root = record { has_root = true; components = [] }

unfoldable pub lexical_absolute_path : Result FilePath → FilePath → Result FilePath
lexical_absolute_path current_dir path =
    if path.has_root
    then ok (from_base root path)
    else (current_dir >>= λ base. ok (from_base base path))

-- `as_os_str`.
abbrev pub component_text : Component → Text
component_text cur_dir = b'.' ∷ []
component_text parent_dir = b'.' ∷ b'.' ∷ []
component_text (normal name) = name

unfoldable pub folded_components : List Component → List Text
folded_components [] = []
folded_components (component ∷ components) =
    to_ascii_lowercase (component_text component) ∷ folded_components components

unfoldable pub ascii_case_fold_path_components : FilePath → List Text
ascii_case_fold_path_components path =
    if path.has_root
    then (b'/' ∷ []) ∷ folded_components path.components
    else folded_components path.components

-- `starts_with`, of lists.
unfoldable pub starts_with : List Text → List Text → Bool
starts_with parts [] = true
starts_with [] (x ∷ prefix) = false
starts_with (p ∷ parts) (x ∷ prefix) =
    let rest = starts_with parts prefix in if text_eq p x then rest else false

unfoldable pub path_components_overlap : FilePath → FilePath → Bool
path_components_overlap candidate ancestor =
    starts_with (ascii_case_fold_path_components candidate)
      (ascii_case_fold_path_components ancestor)

unfoldable pub paths_overlap_for_token_output : FilePath → FilePath → Bool
paths_overlap_for_token_output left right =
    path_components_overlap left right || path_components_overlap right left

abbrev pub is_ascii : Text → Bool
is_ascii [] = true
is_ascii (c ∷ s) = ltb c 128 && is_ascii s

abbrev pub has_non_ascii : List Component → Bool
has_non_ascii [] = false
has_non_ascii (component ∷ components) =
    not (is_ascii (component_text component)) || has_non_ascii components

unfoldable pub auth_path_has_non_ascii : FilePath → Bool
auth_path_has_non_ascii path = has_non_ascii path.components

abbrev pub unless_overlap : String → Bool → Result (Unit {0})
unless_overlap message overlap = if overlap then err (cli (not_distinct message)) else ok tt

-- `resolved`, its root and `unresolved`, from the last component on.
pub record Resolving : Type 0 where
  pub has_root : Bool
  pub resolved : List Component
  pub unresolved : List Component

abbrev canonical_or_unresolved : Resolving → Text → Option FilePath → Resolving
canonical_or_unresolved r name (some canonical) = record {
  has_root = canonical.has_root;
  resolved = reverse canonical.components;
  unresolved = [];
}
canonical_or_unresolved r name none = record r { unresolved = normal name ∷ [] }

module _ (canonicalize : FilePath → Option FilePath) where
  -- A round of the first loop.
  unfoldable pub resolve_component : List Component → Resolving → Component → Resolving
  resolve_component unresolved r cur_dir = r
  resolve_component [] r parent_dir = record r {
    resolved = push_lexical_component r.has_root r.resolved parent_dir;
  }
  resolve_component (u ∷ us) r parent_dir = record r {
    unresolved = push_lexical_component false (u ∷ us) parent_dir;
  }
  resolve_component [] r (normal name) = canonical_or_unresolved r name (
      canonicalize
        (record { has_root = r.has_root; components = reverse (normal name ∷ r.resolved) }))
  resolve_component (u ∷ us) r (normal name) = record r { unresolved = normal name ∷ u ∷ us }

  unfoldable pub resolve_loop : Resolving → List Component → Resolving
  resolve_loop r [] = r
  resolve_loop r (component ∷ components) =
      resolve_loop (resolve_component r.unresolved r component) components

  abbrev pub resolved_path : Resolving → FilePath
  resolved_path r = record {
    has_root = r.has_root;
    components = reverse (lexical_loop r.has_root r.resolved (reverse r.unresolved));
  }

  abbrev pub resolve_from : FilePath → FilePath → Result (Option FilePath)
  resolve_from base path = ok (
      some (
        resolved_path (
          resolve_loop
            (record {
              has_root = base.has_root;
              resolved = reverse base.components;
              unresolved = [];
            })
            path.components)))

  unfoldable pub canonical_existing_ancestor_path :
      Result FilePath → FilePath → Result (Option FilePath)
  canonical_existing_ancestor_path current_dir path =
      if path.has_root
      then resolve_from root path
      else (current_dir >>= λ base. resolve_from base path)

module _ (current_dir : Result FilePath) (canonicalize : FilePath → Option FilePath) where
  abbrev pub both_overlap : Option FilePath → Option FilePath → Bool
  both_overlap (some left) (some right) = paths_overlap_for_token_output left right
  both_overlap none right = false
  both_overlap (some left) none = false

  unfoldable pub canonical_parent_paths_overlap : FilePath → FilePath → Result Bool
  canonical_parent_paths_overlap left right = do
    l ← canonical_existing_ancestor_path canonicalize current_dir left
    r ← canonical_existing_ancestor_path canonicalize current_dir right
    ok (both_overlap l r)

  -- The `if`s, on the two absolute paths; the file system is asked only where the first test is false.
  abbrev pub check_absolute :
      FilePath → FilePath → String → String → FilePath → FilePath → Result (Unit {0})
  check_absolute left right non_ascii_message equivalent_message l r =
      if auth_path_has_non_ascii l || auth_path_has_non_ascii r
      then err (cli (not_ascii non_ascii_message))
      else if paths_overlap_for_token_output l r
      then err (cli (not_distinct equivalent_message))
      else (canonical_parent_paths_overlap left right >>= unless_overlap equivalent_message)

  unfoldable pub ensure_distinct_auth_paths :
      FilePath → FilePath → String → String → Result (Unit {0})
  ensure_distinct_auth_paths left right non_ascii_message equivalent_message =
      lexical_absolute_path current_dir left >>= λ l.
      lexical_absolute_path current_dir right >>= λ r.
      check_absolute left right non_ascii_message equivalent_message l r

  -- The check of two files, where both are given.
  abbrev pub ensure_both : Option FilePath → Option FilePath → String → String → Result (Unit {0})
  ensure_both (some left) (some right) non_ascii equivalent =
      ensure_distinct_auth_paths left right non_ascii equivalent
  ensure_both none right non_ascii equivalent = ok tt
  ensure_both (some left) none non_ascii equivalent = ok tt

  abbrev secret_ascii : String
  secret_ascii = "--client-secret-file and token output paths must use ASCII paths when combined"

  unfoldable pub ensure_distinct_auth_file_paths :
      Option FilePath → Option FilePath → Option FilePath → Result (Unit {0})
  ensure_distinct_auth_file_paths token_file access_token_file client_secret_file =
      ensure_both token_file access_token_file
        "--token-file and --access-token-file must use ASCII paths when both are set"
        "--token-file and --access-token-file must differ"
      >>= λ _.
          ensure_both token_file client_secret_file secret_ascii
            "--client-secret-file must differ from --token-file"
          >>= λ _.
              ensure_both access_token_file client_secret_file secret_ascii
                "--client-secret-file must differ from --access-token-file"
