-- ===== src/Common/OrderedMap/Entries.antt =====
-- Predicates on the entries of an ordered map, and what `retain` leaves.
use webex_headless_messenger.Common.Tests.{
  String, ◌≡◌, refl, inl, inr, Bool, true, Bool-cases, none, some, [], ◌∷◌, arith, str_eq,
  str_eq→eq,
}
use mathlib.Core.Path.{subst}
use webex_headless_messenger.Common.OrderedMap.{OrderedMap, str_lt, get, insert, remove, retain}

module _ {ℓ} {V : Type ℓ} where
  pub get-retain-none :
      (p : V → Bool) (k : String) (m : OrderedMap V) → get k m ≡ none → get k (retain p m) ≡ none
  unfolding get retain
  get-retain-none p k [] h = refl
  get-retain-none p k ((j, w) ∷ m) h = ground (arith, get-retain-none p k m)

  pub get-retain-some :
      (p : V → Bool) (k : String) (v : V) (m : OrderedMap V)
      → get k m ≡ some v
      → p v ≡ true
      → get k (retain p m) ≡ some v
  unfolding get retain
  get-retain-some p k v [] h q = h
  get-retain-some p k v ((j, w) ∷ m) h q = ground (arith, get-retain-some p k v m)

  pub retain-true :
      (p : V → Bool) (k : String) (v : V) (m : OrderedMap V)
      → get k (retain p m) ≡ some v
      → p v ≡ true
  unfolding get retain
  retain-true p k v [] h = cc
  retain-true p k v ((j, w) ∷ m) h = ground (arith, retain-true p k v m)

module _ {ℓ κ} {V : Type ℓ} (P : String → V → Type κ) where
  abbrev pub AllEntries : OrderedMap V → Type κ
  AllEntries [] = Unit
  AllEntries ((k, v) ∷ m) = P k v × AllEntries m

  pub AllEntries-get :
      (k : String) (v : V) (m : OrderedMap V) → AllEntries m → get k m ≡ some v → P k v
  unfolding get
  AllEntries-get k v [] a h = cc
  AllEntries-get k v ((j, w) ∷ m) a h = elim (Bool-cases (str_eq j k)) [
    | inl e ↦ subst (P k) (some-eq (rw e at h)) (subst (λ x. P x w) (str_eq→eq j k e) a.0)
    | inr e ↦ AllEntries-get k v m a.1 (rw e at h)
  ]
    where
      some-eq : some w ≡ some v → w ≡ v
      some-eq q = cc

  pub AllEntries-insert :
      (k : String) (v : V) (m : OrderedMap V) → AllEntries m → P k v → AllEntries (insert k v m)
  unfolding insert
  AllEntries-insert k v [] a p = (p, tt)
  AllEntries-insert k v ((j, w) ∷ m) a p = elim (Bool-cases (str_eq j k)) [
    | inl e ↦ rw e (p, a.1)
    | inr e ↦ elim (Bool-cases (str_lt k j)) [
      | inl f ↦ rw (e, f) (p, a)
      | inr f ↦ rw (e, f) (a.0, AllEntries-insert k v m a.1 p)
    ]
  ]

  pub AllEntries-remove : (k : String) (m : OrderedMap V) → AllEntries m → AllEntries (remove k m)
  unfolding remove
  AllEntries-remove k [] a = tt
  AllEntries-remove k ((j, w) ∷ m) a = elim (Bool-cases (str_eq j k)) [
    | inl e ↦ rw e (AllEntries-remove k m a.1)
    | inr e ↦ rw e (a.0, AllEntries-remove k m a.1)
  ]

  pub AllEntries-retain : (p : V → Bool) (m : OrderedMap V) → AllEntries m → AllEntries (retain p m)
  unfolding retain
  AllEntries-retain p [] a = tt
  AllEntries-retain p ((j, w) ∷ m) a = elim (Bool-cases (p w)) [
    | inl e ↦ rw e (a.0, AllEntries-retain p m a.1)
    | inr e ↦ rw e (AllEntries-retain p m a.1)
  ]
