-- ===== src/Realtime/Seen/Laws.antt =====
-- The invariant of `SeenMessageIds` and what its operations keep.
use mathlib.Core.Path.{subst}
use webex_headless_messenger.Common.{
  ℕ, zero, suc, ◌+◌, ◌≤◌, String, ◌≡◌, refl, sym, ap, ◌∙◌, ◌⊎◌, inl, inr, true, false, ◌||◌,
  Bool-cases, some, List, [], ◌∷◌, ◌++◌, length, length-append, take, take-of_le, take-append_le,
  max, arith, ltb, str_eq, str_eq_refl, eq_iff, contains, if◌then◌else◌,
}
use webex_headless_messenger.Realtime.Seen.{
  SeenMessageIds, default_seen, set_remove, pop_back, truncate_loop, truncate, insert_newest,
}

-- No text stands twice.
abbrev pub IsNodup : List String → Type 0
IsNodup [] = Unit
IsNodup (x ∷ xs) = (contains x xs ≡ false) × IsNodup xs

-- The set and the queue hold the same ids, each once.
pub record IsValid (seen : SeenMessageIds) : Type 0 where
  pub ids_nodup : IsNodup seen.ids
  pub order_nodup : IsNodup seen.order
  pub same_length : length seen.ids ≡ length seen.order
  pub same_ids : (k : String) → contains k seen.ids ≡ contains k seen.order

pub default-IsValid : IsValid default_seen
default-IsValid = record {
  ids_nodup = tt;
  order_nodup = tt;
  same_length = refl;
  same_ids = λ k. refl;
}

pub contains-set_remove :
    (id k : String) (xs : List String)
    → contains k (set_remove id xs) ≡ (if str_eq id k then false else contains k xs)
unfolding set_remove
contains-set_remove id k [] = ground arith
contains-set_remove id k (x ∷ xs) =
    ground (arith, contains-set_remove id k xs, eq_iff id k, eq_iff x id, eq_iff x k)

set_remove-of_absent :
    (id : String) (xs : List String) → contains id xs ≡ false → set_remove id xs ≡ xs
unfolding set_remove
set_remove-of_absent id [] h = refl
set_remove-of_absent id (x ∷ xs) h = ground (arith, set_remove-of_absent id xs)

set_remove-IsNodup : (id : String) (xs : List String) → IsNodup xs → IsNodup (set_remove id xs)
unfolding set_remove
set_remove-IsNodup id [] h = tt
set_remove-IsNodup id (x ∷ xs) h = elim (Bool-cases (str_eq x id)) [
  | inl e ↦ rw e (set_remove-IsNodup id xs h.1)
  | inr e ↦ rw e (contains-set_remove id x xs ∙ ground (arith, h.0), set_remove-IsNodup id xs h.1)
]

length-set_remove :
    (id : String) (xs : List String)
    → IsNodup xs
    → contains id xs ≡ true
    → suc (length (set_remove id xs)) ≡ length xs
unfolding set_remove
length-set_remove id [] n h = cc
length-set_remove id (x ∷ xs) n h = elim (Bool-cases (str_eq x id)) [
  | inl e ↦ rw e (
      ap (λ l. suc (length l))
        (set_remove-of_absent id xs (subst (λ z. contains z xs ≡ false) ((eq_iff x id).0 e) n.0)))
  | inr e ↦ rw e (ap suc (length-set_remove id xs n.1 (rw e at h)))
]

snoc-cases :
    (xs : List String)
    → (xs ≡ []) ⊎ ((init : List String) × (last : String) × (xs ≡ init ++ last ∷ []))
snoc-cases [] = inl refl
snoc-cases (x ∷ xs) = elim (snoc-cases xs) [
  | inl e ↦ inr ([], x, ap (◌∷◌ x) e)
  | inr (init, last, e) ↦ inr (x ∷ init, last, ap (◌∷◌ x) e)
]

pop_back-snoc :
    (init : List String) (last : String) → pop_back (init ++ last ∷ []) ≡ some (last, init)
unfolding pop_back
pop_back-snoc [] last = refl
pop_back-snoc (x ∷ init) last = rw (pop_back-snoc init last)

pub contains-append :
    (k : String) (xs ys : List String) → contains k (xs ++ ys) ≡ (contains k xs || contains k ys)
contains-append k [] ys = refl
contains-append k (x ∷ xs) ys = ground (arith, contains-append k xs ys)

IsNodup-init :
    (init : List String) (last : String)
    → IsNodup (init ++ last ∷ [])
    → IsNodup init × (contains last init ≡ false)
IsNodup-init [] last h = (tt, refl)
IsNodup-init (x ∷ init) last h =
    let (n, e) = IsNodup-init init last h.1 in
    (
      (ground (arith, h.0, contains-append x init (last ∷ [])), n),
      ground (arith, h.0, e, contains-append x init (last ∷ []), eq_iff x last, eq_iff last x),
    )

-- Without its oldest id, the memory is still valid.
drop_oldest-IsValid :
    (seen : SeenMessageIds) (init : List String) (last : String)
    → IsValid seen
    → seen.order ≡ init ++ last ∷ []
    → IsValid (record { ids = set_remove last seen.ids; order = init })
drop_oldest-IsValid seen init last v e =
    let (n, a) = IsNodup-init init last (subst IsNodup e v.order_nodup) in
    let same : (k : String) → contains k seen.ids ≡ (contains k init || contains k (last ∷ [])) =
      λ k. v.same_ids k ∙ ap (contains k) e ∙ contains-append k init (last ∷ []) in
    let has : contains last seen.ids ≡ true = ground (arith, same last, str_eq_refl last) in
    record {
      ids_nodup = set_remove-IsNodup last seen.ids v.ids_nodup;
      order_nodup = n;
      same_length = omega (
        arith,
        length-set_remove last seen.ids v.ids_nodup has,
        v.same_length,
        ap length e,
        length-append init (last ∷ []),
      );
      same_ids =
          λ k. contains-set_remove last k seen.ids ∙ ground (arith, same k, a, eq_iff last k);
    }

truncate_loop-step :
    (rounds m : ℕ) (seen : SeenMessageIds) (last : String) (rest : List String)
    → ltb m (length seen.ids) ≡ true
    → pop_back seen.order ≡ some (last, rest)
    → truncate_loop (suc rounds) m seen
      ≡ truncate_loop rounds m (record { ids = set_remove last seen.ids; order = rest })
unfolding truncate_loop
truncate_loop-step rounds m seen last rest e f = rw (e, f, truncate_loop)

truncate_loop_lem :
    (rounds m : ℕ) (seen : SeenMessageIds)
    → IsValid seen
    → length seen.order ≤ m + rounds
    → IsValid (truncate_loop rounds m seen)
      × ((truncate_loop rounds m seen).order ≡ take m seen.order)
unfolding truncate_loop
truncate_loop_lem zero m seen v h = (v, sym (take-of_le m seen.order (omega arith)))
truncate_loop_lem (suc rounds) m seen v h = elim (Bool-cases (ltb m (length seen.ids))) [
  | inr e ↦ rw (e, truncate_loop) (v, sym (take-of_le m seen.order (ground (arith, v.same_length))))
  | inl e ↦ elim (snoc-cases seen.order) [
    | inl f ↦ absurd (ground (arith, ap length f, v.same_length))
    | inr (init, last, f) ↦
        let (v', q) =
          truncate_loop_lem rounds m (record { ids = set_remove last seen.ids; order = init })
            (drop_oldest-IsValid seen init last v f)
            (omega (arith, ap length f, length-append init (last ∷ []))) in
        subst (λ z. IsValid z × (z.order ≡ take m seen.order))
          (sym (
            truncate_loop-step rounds m seen last init e (ap pop_back f ∙ pop_back-snoc init last)))
          (
            v',
            q
                ∙ sym (
                    take-append_le m init (last ∷ [])
                      (ground (arith, v.same_length, ap length f, length-append init (last ∷ []))))
                ∙ ap (take m) (sym f),
          )
  ]
]

-- A valid memory stays valid when it is truncated, and keeps its newest ids, at most `max_ids` of them,
-- where at least one is allowed.
pub truncate_lem :
    (seen : SeenMessageIds) (max_ids : ℕ)
    → IsValid seen
    → IsValid (truncate seen max_ids)
      × ((truncate seen max_ids).order ≡ take (max max_ids 1) seen.order)
unfolding truncate
truncate_lem seen max_ids v =
    truncate_loop_lem (suc (length seen.order)) (max max_ids 1) seen v (omega arith)

pub insert_newest-IsValid :
    (seen : SeenMessageIds) (id : String) → IsValid seen → IsValid (insert_newest seen id)
unfolding insert_newest
insert_newest-IsValid seen id v = elim (Bool-cases (contains id seen.ids)) [
  | inl e ↦ rw e v
  | inr e ↦ rw e (record {
    ids_nodup = (e, v.ids_nodup);
    order_nodup = (sym (v.same_ids id) ∙ e, v.order_nodup);
    same_length = ap suc v.same_length;
    same_ids = λ k. ap (λ b. str_eq id k || b) (v.same_ids k);
  })
]
