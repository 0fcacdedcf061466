-- ===== src/Realtime/Rooms/Inactive/Saved.antt =====
-- What pruning takes away and what it leaves.
use mathlib.Core.Path.{subst}
use webex_headless_messenger.Common.{
  ℕ, zero, suc, ◌≤◌, String, ◌≡◌, refl, sym, ap, ◌∙◌, ◌⊎◌, inl, inr, true, false, Bool-cases,
  Option, Option-cases, none, some, length, max, arith, ltb, str_eq, str_eq→eq, eq_iff,
}
use webex_headless_messenger.Common.OrderedMap.{OrderedMap, get, get-insert, get-remove}
use webex_headless_messenger.Checkpoint.{RoomCheckpoint}
use webex_headless_messenger.Realtime.Poller.{has_pending_backlog, current_checkpoint}
use webex_headless_messenger.Realtime.Rooms.{RoomPollerEntry, Seed}
use webex_headless_messenger.Realtime.Rooms.Inactive.{
  Inactive, removable_room_id, saved, prune_room, prune_loop, prune_inactive_rooms, reordered,
}
use webex_headless_messenger.Realtime.Rooms.Inactive.Prune.{
  HasDistinctKeys, IsDrained, removable-IsDrained, removable-none, remove-HasDistinctKeys,
  length-remove_lt, prune_room-some, none-ne-some, some-injective,
}

-- The loop ends here: the rooms are few enough or none can be removed.
abbrev IsSettled : ℕ → Inactive → Type 0
IsSettled limit i =
    (length i.inactive_rooms ≤ limit)
    ⊎ (removable_room_id i.inactive_rooms i.inactive_room_order ≡ none)

prune_loop-cases :
    (rounds limit : ℕ) (i : Inactive)
    → HasDistinctKeys i.inactive_rooms
    → (IsSettled limit i × (prune_loop (suc rounds) limit i ≡ i))
      ⊎ ((id : String) × IsDrained i.inactive_rooms id
          × (prune_loop (suc rounds) limit i ≡ prune_loop rounds limit (prune_room i id)))
unfolding prune_loop
prune_loop-cases rounds limit i d = elim (Bool-cases (ltb limit (length i.inactive_rooms))) [
  | inr e ↦ inl (inl (ground arith), rw (e, prune_loop) refl)
  | inl e ↦ elim (Option-cases (removable_room_id i.inactive_rooms i.inactive_room_order)) [
    | inl f ↦ inl (inr f, rw (e, f, prune_loop) refl)
    | inr (id, f) ↦ inr (
      id,
      removable-IsDrained i.inactive_rooms i.inactive_room_order id d f,
      rw (e, f, prune_loop) refl,
    )
  ]
]

get-saved_other :
    (id k : String) (o : Option RoomCheckpoint) (m : OrderedMap Seed)
    → str_eq id k ≡ false
    → get k (saved id o m) ≡ get k m
get-saved_other id k none m h = refl
get-saved_other id k (some c) m h =
    get-insert id k (c.seen_message_ids, c.initialize_empty) m ∙ rw h refl

-- A round on a room `id`, seen from another room.
round-other :
    (i : Inactive) (id k : String)
    → IsDrained i.inactive_rooms id
    → str_eq id k ≡ false
    → (get k (prune_room i id).inactive_rooms ≡ get k i.inactive_rooms)
      × (get k (prune_room i id).checkpoints ≡ get k i.checkpoints)
round-other i id k (e, g, b) h =
    let (p, q) = prune_room-some i id e g in
    (
      ap (get k) p ∙ get-remove id k i.inactive_rooms ∙ rw h refl,
      ap (get k) q ∙ get-saved_other id k (current_checkpoint e.poller id) i.checkpoints h,
    )

round-HasDistinctKeys :
    (i : Inactive) (id : String)
    → IsDrained i.inactive_rooms id
    → HasDistinctKeys i.inactive_rooms
    → HasDistinctKeys (prune_room i id).inactive_rooms
round-HasDistinctKeys i id (e, g, b) d =
    subst HasDistinctKeys (sym (prune_room-some i id e g).0)
      (remove-HasDistinctKeys id i.inactive_rooms d)

prune_loop-absent :
    (rounds limit : ℕ) (i : Inactive) (k : String)
    → HasDistinctKeys i.inactive_rooms
    → get k i.inactive_rooms ≡ none
    → get k (prune_loop rounds limit i).checkpoints ≡ get k i.checkpoints
unfolding prune_loop
prune_loop-absent zero limit i k d h = refl
prune_loop-absent (suc rounds) limit i k d h = elim (prune_loop-cases rounds limit i d) [
  | inl (s, e) ↦ ap (λ (z : Inactive). get k z.checkpoints) e
  | inr (id, r, e) ↦ elim (Bool-cases (str_eq id k)) [
    | inl q ↦ absurd (
        none-ne-some
          (sym h ∙ subst (λ z. get z i.inactive_rooms ≡ some r.0) (str_eq→eq id k q) r.1))
    | inr q ↦
        let (a, b) = round-other i id k r q in
        ap (λ (z : Inactive). get k z.checkpoints) e
        ∙ prune_loop-absent rounds limit (prune_room i id) k (round-HasDistinctKeys i id r d)
            (a ∙ h)
        ∙ b
  ]
]

-- The room is still there; or it had no pending backlog, and its poller's checkpoint, if it has one, is
-- stored.
abbrev pub IsKeptOrSaved : Inactive → String → RoomPollerEntry → Type 0
IsKeptOrSaved i k e =
    (get k i.inactive_rooms ≡ some e)
    ⊎ ((has_pending_backlog e.poller ≡ false)
        × ((c : RoomCheckpoint)
            → current_checkpoint e.poller k ≡ some c
            → get k i.checkpoints ≡ some (c.seen_message_ids, c.initialize_empty)))

get-saved :
    (k : String) (o : Option RoomCheckpoint) (m : OrderedMap Seed) (c : RoomCheckpoint)
    → o ≡ some c
    → get k (saved k o m) ≡ some (c.seen_message_ids, c.initialize_empty)
get-saved k o m c h =
    ap (λ z. get k (saved k z m)) h
    ∙ get-insert k k (c.seen_message_ids, c.initialize_empty) m
    ∙ ground (arith, eq_iff k k)

removed-saved :
    (rounds limit : ℕ) (i : Inactive) (k : String) (e : RoomPollerEntry)
    → HasDistinctKeys i.inactive_rooms
    → get k i.inactive_rooms ≡ some e
    → IsDrained i.inactive_rooms k
    → IsKeptOrSaved (prune_loop rounds limit (prune_room i k)) k e
removed-saved rounds limit i k e d h r =
    let same : r.0 ≡ e = some-injective (sym r.1 ∙ h) in
    let (p, q) = prune_room-some i k e h in
    inr (
      subst (λ (z : RoomPollerEntry). has_pending_backlog z.poller ≡ false) same r.2,
      λ c f.
          prune_loop-absent rounds limit (prune_room i k) k (round-HasDistinctKeys i k r d)
            (ap (get k) p ∙ get-remove k k i.inactive_rooms ∙ ground (arith, eq_iff k k))
          ∙ ap (get k) q
          ∙ get-saved k (current_checkpoint e.poller k) i.checkpoints c f,
    )

prune_loop-IsKeptOrSaved :
    (rounds limit : ℕ) (i : Inactive) (k : String) (e : RoomPollerEntry)
    → HasDistinctKeys i.inactive_rooms
    → get k i.inactive_rooms ≡ some e
    → IsKeptOrSaved (prune_loop rounds limit i) k e
unfolding prune_loop
prune_loop-IsKeptOrSaved zero limit i k e d h = inl h
prune_loop-IsKeptOrSaved (suc rounds) limit i k e d h = elim (prune_loop-cases rounds limit i d) [
  | inl (s, f) ↦ subst (λ z. IsKeptOrSaved z k e) (sym f) (inl h)
  | inr (id, r, f) ↦
      subst (λ z. IsKeptOrSaved z k e) (sym f)
        (elim (Bool-cases (str_eq id k)) [
          | inl q ↦
              subst (λ z. IsKeptOrSaved (prune_loop rounds limit (prune_room i z)) k e)
                (sym (str_eq→eq id k q))
                (removed-saved rounds limit i k e d h
                  (subst (IsDrained i.inactive_rooms) (str_eq→eq id k q) r))
          | inr q ↦
              prune_loop-IsKeptOrSaved rounds limit (prune_room i id) k e
                (round-HasDistinctKeys i id r d) ((round-other i id k r q).0 ∙ h)
        ])
]

-- Let the map have each key once. Pruning keeps a room's poller, or the poller had no pending backlog and
-- its checkpoint, if it has one, is stored for the room's return.
pub prune-IsKeptOrSaved :
    (i : Inactive) (max_inactive_rooms : ℕ) (k : String) (e : RoomPollerEntry)
    → HasDistinctKeys i.inactive_rooms
    → get k i.inactive_rooms ≡ some e
    → IsKeptOrSaved (prune_inactive_rooms i max_inactive_rooms) k e
unfolding prune_inactive_rooms
prune-IsKeptOrSaved i max_inactive_rooms k e d h =
    prune_loop-IsKeptOrSaved (length i.inactive_rooms) (max max_inactive_rooms 1) (reordered i) k e
      d h

prune_loop-IsSettled :
    (rounds limit : ℕ) (i : Inactive)
    → HasDistinctKeys i.inactive_rooms
    → length i.inactive_rooms ≤ rounds
    → IsSettled limit (prune_loop rounds limit i)
unfolding prune_loop
prune_loop-IsSettled zero limit i d h = inl (omega arith)
prune_loop-IsSettled (suc rounds) limit i d h = elim (prune_loop-cases rounds limit i d) [
  | inl (s, f) ↦ subst (IsSettled limit) (sym f) s
  | inr (id, r, f) ↦ subst (IsSettled limit) (sym f) (
      prune_loop-IsSettled rounds limit (prune_room i id) (round-HasDistinctKeys i id r d) (
        omega (
          arith,
          ap length (prune_room-some i id r.0 r.1).0,
          length-remove_lt id i.inactive_rooms r.0 r.1,
        )))
]

-- At most so many rooms are left, or each that is left has a pending backlog.
abbrev pub IsPrunedTo : ℕ → Inactive → Type 0
IsPrunedTo limit i =
    (length i.inactive_rooms ≤ limit)
    ⊎ ((k : String) (e : RoomPollerEntry)
        → get k i.inactive_rooms ≡ some e
        → has_pending_backlog e.poller ≡ true)

IsSettled-IsPrunedTo : (limit : ℕ) (i : Inactive) → IsSettled limit i → IsPrunedTo limit i
IsSettled-IsPrunedTo limit i (inl h) = inl h
IsSettled-IsPrunedTo limit i (inr h) =
    inr (λ k e g. removable-none i.inactive_rooms i.inactive_room_order k e h g)

-- Let the map have each key once. Pruning leaves at most `max_inactive_rooms` rooms, and at least one
-- is allowed, or else every room that it leaves has a pending backlog.
pub prune-IsPrunedTo :
    (i : Inactive) (max_inactive_rooms : ℕ)
    → HasDistinctKeys i.inactive_rooms
    → IsPrunedTo (max max_inactive_rooms 1) (prune_inactive_rooms i max_inactive_rooms)
unfolding prune_inactive_rooms
prune-IsPrunedTo i max_inactive_rooms d =
    IsSettled-IsPrunedTo (max max_inactive_rooms 1)
      (prune_loop (length i.inactive_rooms) (max max_inactive_rooms 1) (reordered i))
      (prune_loop-IsSettled (length i.inactive_rooms) (max max_inactive_rooms 1) (reordered i) d
        (omega arith))
