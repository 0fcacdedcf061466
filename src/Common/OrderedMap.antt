-- ===== src/Common/OrderedMap.antt =====
-- Rust's `BTreeMap<String, V>`: an association list kept in the order of its keys.
pub mod Entries
use Prim.Native.String.{compare}
use text.Mathlib.Text.{is_lt}
use webex_headless_messenger.Common.Tests.{
  String, ◌≡◌, refl, ap, inl, inr, Bool, true, false, Bool-cases, Option, none, some, List, [], ◌∷◌,
  arith, str_eq, eq_iff, if◌then◌else◌,
}

-- The byte order of `String: Ord`.
abbrev pub str_lt : String → String → Bool
str_lt a b = is_lt (compare a b)

abbrev pub OrderedMap {ℓ} : Type ℓ → Type ℓ
OrderedMap V = List (String × V)

module _ {ℓ} {V : Type ℓ} where
  -- `BTreeMap::get`.
  unfoldable pub get : String → OrderedMap V → Option V
  get k [] = none
  get k ((j, v) ∷ m) = if str_eq j k then some v else get k m

  -- `BTreeMap::contains_key`.
  unfoldable pub contains_key : String → OrderedMap V → Bool
  contains_key k [] = false
  contains_key k ((j, v) ∷ m) = if str_eq j k then true else contains_key k m

  -- `BTreeMap::insert`.
  unfoldable pub insert : String → V → OrderedMap V → OrderedMap V
  insert k v [] = (k, v) ∷ []
  insert k v ((j, w) ∷ m) =
      let rest = insert k v m in
      if str_eq j k then (k, v) ∷ m else if str_lt k j then (k, v) ∷ (j, w) ∷ m else (j, w) ∷ rest

  -- `BTreeMap::remove`.
  unfoldable pub remove : String → OrderedMap V → OrderedMap V
  remove k [] = []
  remove k ((j, w) ∷ m) = let rest = remove k m in if str_eq j k then rest else (j, w) ∷ rest

  -- `BTreeMap::retain`, by the value.
  unfoldable pub retain : (V → Bool) → OrderedMap V → OrderedMap V
  retain p [] = []
  retain p ((j, w) ∷ m) = let rest = retain p m in if p w then (j, w) ∷ rest else rest

  pub get-insert :
      (k j : String) (v : V) (m : OrderedMap V)
      → get j (insert k v m) ≡ (if str_eq k j then some v else get j m)
  unfolding get insert
  get-insert k j v [] = refl
  get-insert k j v ((i, w) ∷ m) =
      ground (arith, eq_iff k j, eq_iff i k, eq_iff i j, get-insert k j v m)

  pub get-remove :
      (k j : String) (m : OrderedMap V)
      → get j (remove k m) ≡ (if str_eq k j then none else get j m)
  unfolding get remove
  get-remove k j [] = ground arith
  get-remove k j ((i, w) ∷ m) = ground (arith, eq_iff k j, eq_iff i k, eq_iff i j, get-remove k j m)

  pub contains_key-insert :
      (k j : String) (v : V) (m : OrderedMap V)
      → contains_key j (insert k v m) ≡ (if str_eq k j then true else contains_key j m)
  unfolding contains_key insert
  contains_key-insert k j v [] = refl
  contains_key-insert k j v ((i, w) ∷ m) =
      ground (arith, eq_iff k j, eq_iff i k, eq_iff i j, contains_key-insert k j v m)

  pub contains_key-remove :
      (k j : String) (m : OrderedMap V)
      → contains_key j (remove k m) ≡ (if str_eq k j then false else contains_key j m)
  unfolding contains_key remove
  contains_key-remove k j [] = ground arith
  contains_key-remove k j ((i, w) ∷ m) =
      ground (arith, eq_iff k j, eq_iff i k, eq_iff i j, contains_key-remove k j m)

  pub retain-retain : (p : V → Bool) (m : OrderedMap V) → retain p (retain p m) ≡ retain p m
  unfolding retain
  retain-retain p [] = refl
  retain-retain p ((j, w) ∷ m) = elim (Bool-cases (p w)) [
    | inl e ↦ rw e (rw e (ap (◌∷◌ (j, w)) (retain-retain p m)))
    | inr e ↦ rw e (retain-retain p m)
  ]
