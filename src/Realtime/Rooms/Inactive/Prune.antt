-- ===== src/Realtime/Rooms/Inactive/Prune.antt =====
-- Which rooms can be removed, and what one removal does.
use mathlib.Core.Path.{subst}
use webex_headless_messenger.Common.{
  ◌≤◌, ◌<◌, String, ◌≡◌, refl, sym, ◌∙◌, inl, inr, true, false, Bool-cases, Option, Option-cases,
  none, some, List, [], ◌∷◌, length, arith, str_eq, str_eq→eq, str_eq_refl, if◌then◌else◌,
}
use webex_headless_messenger.Common.OrderedMap.{
  OrderedMap, get, contains_key, remove, contains_key-remove,
}
use webex_headless_messenger.Realtime.Poller.{has_pending_backlog, current_checkpoint}
use webex_headless_messenger.Realtime.Rooms.{RoomPollerEntry}
use webex_headless_messenger.Realtime.Rooms.Inactive.{
  Inactive, is_drained, find_ordered, find_drained, removable_room_id, saved, prune_room,
}

-- No key stands twice, as in every `BTreeMap`.
abbrev pub HasDistinctKeys {ℓ} : {V : Type ℓ} → OrderedMap V → Type 0
HasDistinctKeys [] = Unit
HasDistinctKeys ((k, v) ∷ m) = (contains_key k m ≡ false) × HasDistinctKeys m

pub some-injective {ℓ} : {A : Type ℓ} {a b : A} → some a ≡ some b → a ≡ b
some-injective h = cc

pub none-ne-some {ℓ} : {A : Type ℓ} {a : A} → none ≡ some a → ⊥
none-ne-some h = cc

pub true-ne-false : true ≡ false → ⊥
true-ne-false h = cc

-- The room is there and has no pending backlog.
abbrev pub IsDrained : OrderedMap RoomPollerEntry → String → Type 0
IsDrained rooms id =
    (e : RoomPollerEntry) × (get id rooms ≡ some e) × (has_pending_backlog e.poller ≡ false)

on_entry :
    (rooms : OrderedMap RoomPollerEntry) (x id : String) (rest : Option String)
    (o : Option RoomPollerEntry)
    → get x rooms ≡ o
    → (rest ≡ some id → IsDrained rooms id)
    → (elim o [ none ↦ rest | some entry ↦ if is_drained entry then some x else rest ]) ≡ some id
    → IsDrained rooms id
on_entry rooms x id rest none e ih h = ih h
on_entry rooms x id rest (some entry) e ih h =
    elim (Bool-cases (has_pending_backlog entry.poller)) [
      | inl f ↦ ih (rw f at h)
      | inr f ↦ (entry, subst (λ z. get z rooms ≡ some entry) (some-injective (rw f at h)) e, f)
    ]

find_ordered-IsDrained :
    (rooms : OrderedMap RoomPollerEntry) (ids : List String) (id : String)
    → find_ordered rooms ids ≡ some id
    → IsDrained rooms id
unfolding find_ordered
find_ordered-IsDrained rooms [] id h = absurd cc
find_ordered-IsDrained rooms (x ∷ ids) id h =
    on_entry rooms x id (find_ordered rooms ids) (get x rooms) refl
      (find_ordered-IsDrained rooms ids id) h

get-head :
    (k : String) (entry : RoomPollerEntry) (rooms : OrderedMap RoomPollerEntry)
    → get k ((k, entry) ∷ rooms) ≡ some entry
unfolding get
get-head k entry rooms = rw (str_eq_refl k)

get-cons_absent :
    (k id : String) (entry : RoomPollerEntry) (rooms : OrderedMap RoomPollerEntry)
    (e : RoomPollerEntry)
    → contains_key k rooms ≡ false
    → get id rooms ≡ some e
    → get id ((k, entry) ∷ rooms) ≡ some e
unfolding get contains_key
get-cons_absent k id entry rooms e h g = elim (Bool-cases (str_eq k id)) [
  | inr f ↦ rw f g
  | inl f ↦ absurd (
      none-ne-some
        (sym (absent rooms (subst (λ z. contains_key z rooms ≡ false) (str_eq→eq k id f) h)) ∙ g))
]
  where
    absent : (m : OrderedMap RoomPollerEntry) → contains_key id m ≡ false → get id m ≡ none
    absent [] h = refl
    absent ((j, w) ∷ m) h = elim (Bool-cases (str_eq j id)) [
      | inl f ↦ absurd (true-ne-false (rw f at h))
      | inr f ↦ rw f (absent m (rw f at h))
    ]

find_drained-IsDrained :
    (rooms : OrderedMap RoomPollerEntry) (id : String)
    → HasDistinctKeys rooms
    → find_drained rooms ≡ some id
    → IsDrained rooms id
unfolding find_drained
find_drained-IsDrained [] id d h = absurd (none-ne-some h)
find_drained-IsDrained ((k, entry) ∷ rooms) id d h =
    elim (Bool-cases (has_pending_backlog entry.poller)) [
      | inl f ↦
          let (e, g, b) = find_drained-IsDrained rooms id d.1 (rw f at h) in
          (e, get-cons_absent k id entry rooms e d.0 g, b)
      | inr f ↦ (
        entry,
        subst (λ z. get z ((k, entry) ∷ rooms) ≡ some entry) (some-injective (rw f at h))
            (get-head k entry rooms),
        f,
      )
    ]

find_drained-none :
    (rooms : OrderedMap RoomPollerEntry) (id : String) (e : RoomPollerEntry)
    → find_drained rooms ≡ none
    → get id rooms ≡ some e
    → has_pending_backlog e.poller ≡ true
unfolding find_drained get
find_drained-none [] id e h g = absurd (none-ne-some g)
find_drained-none ((k, entry) ∷ rooms) id e h g =
    elim (Bool-cases (has_pending_backlog entry.poller)) [
      | inr f ↦ absurd (none-ne-some (sym (rw f at h)))
      | inl f ↦ elim (Bool-cases (str_eq k id)) [
        | inl q ↦
            subst (λ (z : RoomPollerEntry). has_pending_backlog z.poller ≡ true)
              (some-injective (rw q at g)) f
        | inr q ↦ find_drained-none rooms id e (rw f at h) (rw q at g)
      ]
    ]

pub removable-IsDrained :
    (rooms : OrderedMap RoomPollerEntry) (order : List String) (id : String)
    → HasDistinctKeys rooms
    → removable_room_id rooms order ≡ some id
    → IsDrained rooms id
unfolding removable_room_id
removable-IsDrained rooms order id d h = elim (Option-cases (find_ordered rooms order)) [
  | inl e ↦ find_drained-IsDrained rooms id d (rw (e, removable_room_id) at h)
  | inr (x, e) ↦ find_ordered-IsDrained rooms order id (e ∙ (rw (e, removable_room_id) at h))
]

pub removable-none :
    (rooms : OrderedMap RoomPollerEntry) (order : List String) (id : String) (e : RoomPollerEntry)
    → removable_room_id rooms order ≡ none
    → get id rooms ≡ some e
    → has_pending_backlog e.poller ≡ true
unfolding removable_room_id
removable-none rooms order id e h g = elim (Option-cases (find_ordered rooms order)) [
  | inl q ↦ find_drained-none rooms id e (rw (q, removable_room_id) at h) g
  | inr (x, q) ↦ absurd (none-ne-some (sym (rw (q, removable_room_id) at h)))
]

pub remove-HasDistinctKeys :
    (k : String) (m : OrderedMap RoomPollerEntry) → HasDistinctKeys m → HasDistinctKeys (remove k m)
unfolding remove
remove-HasDistinctKeys k [] d = tt
remove-HasDistinctKeys k ((j, e) ∷ m) d = elim (Bool-cases (str_eq j k)) [
  | inl q ↦ rw q (remove-HasDistinctKeys k m d.1)
  | inr q ↦ rw q ((contains_key-remove k j m ∙ ground (arith, d.0), remove-HasDistinctKeys k m d.1))
]

length-remove_le : (k : String) (m : OrderedMap RoomPollerEntry) → length (remove k m) ≤ length m
unfolding remove
length-remove_le k [] = omega arith
length-remove_le k ((j, e) ∷ m) = ground (arith, length-remove_le k m)

pub length-remove_lt :
    (k : String) (m : OrderedMap RoomPollerEntry) (e : RoomPollerEntry)
    → get k m ≡ some e
    → length (remove k m) < length m
unfolding remove get
length-remove_lt k [] e h = absurd (none-ne-some h)
length-remove_lt k ((j, w) ∷ m) e h = elim (Bool-cases (str_eq j k)) [
  | inl q ↦ rw q (ground (arith, length-remove_le k m))
  | inr q ↦ rw q (ground (arith, length-remove_lt k m e (rw q at h)))
]

-- What `prune_room` does with a room that is there.
pub prune_room-some :
    (i : Inactive) (id : String) (e : RoomPollerEntry)
    → get id i.inactive_rooms ≡ some e
    → ((prune_room i id).inactive_rooms ≡ remove id i.inactive_rooms)
      × ((prune_room i id).checkpoints ≡ saved id (current_checkpoint e.poller id) i.checkpoints)
unfolding prune_room
prune_room-some i id e h = rw (h, prune_room) (refl, refl)
