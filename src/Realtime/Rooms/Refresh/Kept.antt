-- ===== src/Realtime/Rooms/Refresh/Kept.antt =====
-- What a refresh keeps of the active rooms.
use mathlib.Core.Path.{subst}
use webex_headless_messenger.Common.{
  ℕ, String, ◌≡◌, refl, sym, ap, ◌∙◌, ◌⊎◌, inl, inr, true, false, Bool-cases, Option-cases, none,
  some, List, [], ◌∷◌, str_eq, str_eq→eq, str_eq_refl, ok,
}
use webex_headless_messenger.Common.OrderedMap.{OrderedMap, get, insert, get-insert, get-remove}
use webex_headless_messenger.Message.{Room}
use webex_headless_messenger.Realtime.Config.{PollingConfig}
use webex_headless_messenger.Realtime.Poller.{MessagePoller}
use webex_headless_messenger.Realtime.Rooms.{RoomPollerEntry, MultiRoomMessagePoller}
use webex_headless_messenger.Realtime.Rooms.Inactive.Prune.{
  some-injective, none-ne-some, true-ne-false,
}
use webex_headless_messenger.Realtime.Rooms.Refresh.{
  Refreshing, revive_room, refresh_room, refresh_loop, refreshing, refresh_rooms,
}

-- The room is in the map with this poller.
abbrev pub HasPoller : OrderedMap RoomPollerEntry → String → MessagePoller → Type 0
HasPoller rooms k q = (e : RoomPollerEntry) × (get k rooms ≡ some e) × (e.poller ≡ q)

insert-HasPoller :
    (rooms : OrderedMap RoomPollerEntry) (id k : String) (e : RoomPollerEntry) (q : MessagePoller)
    → (str_eq id k ≡ true → e.poller ≡ q)
    → (str_eq id k ≡ false → HasPoller rooms k q)
    → HasPoller (insert id e rooms) k q
insert-HasPoller rooms id k e q same other = elim (Bool-cases (str_eq id k)) [
  | inl h ↦ (e, get-insert id k e rooms ∙ rw h refl, same h)
  | inr h ↦ let (f, g, s) = other h in (f, get-insert id k e rooms ∙ rw h g, s)
]

-- A step on a room: from a state where the room has the poller, among the new rooms, or among the old.
abbrev Holds : Refreshing → String → MessagePoller → Type 0
Holds r k q = HasPoller r.next_rooms k q ⊎ ((get k r.next_rooms ≡ none) × HasPoller r.rooms k q)

same-none-some :
    (rooms : OrderedMap RoomPollerEntry) (id k : String) (q : MessagePoller)
    → str_eq id k ≡ true
    → get id rooms ≡ none
    → HasPoller rooms k q
    → ⊥
same-none-some rooms id k q h e (f, g, s) =
    none-ne-some (sym e ∙ ap (λ z. get z rooms) (str_eq→eq id k h) ∙ g)

same-poller :
    (rooms : OrderedMap RoomPollerEntry) (id k : String) (q : MessagePoller) (e : RoomPollerEntry)
    → str_eq id k ≡ true
    → get id rooms ≡ some e
    → HasPoller rooms k q
    → e.poller ≡ q
same-poller rooms id k q e h g (f, g', s) =
    ap (λ (z : RoomPollerEntry). z.poller)
      (some-injective (sym g ∙ ap (λ z. get z rooms) (str_eq→eq id k h) ∙ g'))
    ∙ s

-- A step on the room `id` puts an entry in the new rooms, and its poller is the one that was held.
abbrev IsStep : Refreshing → String → Refreshing → Type 0
IsStep r id r' =
    (e : RoomPollerEntry) × (r'.next_rooms ≡ insert id e r.next_rooms)
    × ((k : String) (q : MessagePoller) → Holds r k q → str_eq id k ≡ true → e.poller ≡ q)
    × ((k : String) → str_eq id k ≡ false → get k r'.rooms ≡ get k r.rooms)

revive-IsStep :
    (config : PollingConfig) (r : Refreshing) (id : String) (room : Room)
    → get id r.next_rooms ≡ none
    → get id r.rooms ≡ none
    → IsStep r id (revive_room config r id room)
unfolding revive_room
revive-IsStep config r id room n m = elim (Option-cases (get id r.next_inactive.inactive_rooms)) [
  | inl e ↦ rw (e, revive_room) (_, refl, not_held, λ k h. refl)
  | inr (x, e) ↦ rw (e, revive_room) (_, refl, not_held, λ k h. refl)
]
  where
    not_held :
        {e : MessagePoller} (k : String) (q : MessagePoller)
        → Holds r k q
        → str_eq id k ≡ true
        → e ≡ q
    not_held k q (inl h) s = absurd (same-none-some r.next_rooms id k q s n h)
    not_held k q (inr h) s = absurd (same-none-some r.rooms id k q s m h.1)

same-none :
    (rooms : OrderedMap RoomPollerEntry) (id k : String) (e : RoomPollerEntry)
    → str_eq id k ≡ true
    → get id rooms ≡ some e
    → get k rooms ≡ none
    → ⊥
same-none rooms id k e h g n =
    none-ne-some (sym n ∙ ap (λ z. get z rooms) (sym (str_eq→eq id k h)) ∙ g)

refresh_room-IsStep :
    (config : PollingConfig) (r : Refreshing) (room : Room) (id : String)
    → room.id ≡ some id
    → IsStep r id (refresh_room config r room)
unfolding refresh_room
refresh_room-IsStep config r room id i = elim (Option-cases (get id r.next_rooms)) [
  | inr (e, n) ↦ rw (i, n, refresh_room) (_, refl, in_next e n, λ k h. refl)
  | inl n ↦ elim (Option-cases (get id r.rooms)) [
    | inr (e, m) ↦
        rw (i, n, m, refresh_room)
          (_, refl, in_rooms e n m, λ k h. get-remove id k r.rooms ∙ rw h refl)
    | inl m ↦ rw (i, n, m, refresh_room) (revive-IsStep config r id room n m)
  ]
]
  where
    in_next :
        (e : RoomPollerEntry)
        → get id r.next_rooms ≡ some e
        → (k : String) (q : MessagePoller) → Holds r k q
        → str_eq id k ≡ true
        → e.poller ≡ q
    in_next e n k q (inl h) s = same-poller r.next_rooms id k q e s n h
    in_next e n k q (inr h) s = absurd (same-none r.next_rooms id k e s n h.0)

    in_rooms :
        (e : RoomPollerEntry)
        → get id r.next_rooms ≡ none
        → get id r.rooms ≡ some e
        → (k : String) (q : MessagePoller) → Holds r k q
        → str_eq id k ≡ true
        → e.poller ≡ q
    in_rooms e n m k q (inl h) s = absurd (same-none-some r.next_rooms id k q s n h)
    in_rooms e n m k q (inr h) s = same-poller r.rooms id k q e s m h.1

step-Holds :
    (r r' : Refreshing) (id k : String) (q : MessagePoller)
    → IsStep r id r'
    → Holds r k q
    → HasPoller r'.next_rooms k q ⊎ ((str_eq id k ≡ false) × Holds r' k q)
step-Holds r r' id k q (e, n, same, other) h = elim (Bool-cases (str_eq id k)) [
  | inl s ↦ inl (
      subst (λ z. HasPoller z k q) (sym n)
        (e, get-insert id k e r.next_rooms ∙ rw s refl, same k q h s))
  | inr s ↦ inr (s, unchanged s h)
]
  where
    unchanged : str_eq id k ≡ false → Holds r k q → Holds r' k q
    unchanged s (inl (f, g, t)) = inl (f, ap (get k) n ∙ get-insert id k e r.next_rooms ∙ rw s g, t)
    unchanged s (inr (m, (f, g, t))) =
        inr (ap (get k) n ∙ get-insert id k e r.next_rooms ∙ rw s m, (f, other k s ∙ g, t))

-- The room is among those discovered.
abbrev pub IsDiscovered : String → List Room → Type 0
IsDiscovered k [] = ⊥
IsDiscovered k (room ∷ rooms) = (room.id ≡ some k) ⊎ IsDiscovered k rooms

refresh_room-Holds :
    (config : PollingConfig) (r : Refreshing) (room : Room) (k : String) (q : MessagePoller)
    → Holds r k q
    → Holds (refresh_room config r room) k q
      × (room.id ≡ some k → HasPoller (refresh_room config r room).next_rooms k q)
unfolding refresh_room
refresh_room-Holds config r room k q h = elim (Option-cases room.id) [
  | inl e ↦ (rw (e, refresh_room) h, λ f. absurd (none-ne-some (sym e ∙ f)))
  | inr (id, e) ↦
      elim (step-Holds r (refresh_room config r room) id k q
        (refresh_room-IsStep config r room id e) h) [
          | inl x ↦ (inl x, λ f. x)
          | inr (s, x) ↦ (
            x,
            λ f. absurd (
                true-ne-false
                  (sym (str_eq_refl k) ∙ ap (λ z. str_eq z k) (some-injective (sym f ∙ e)) ∙ s)),
          )
        ]
]

refresh_room-HasPoller :
    (config : PollingConfig) (r : Refreshing) (room : Room) (k : String) (q : MessagePoller)
    → HasPoller r.next_rooms k q
    → HasPoller (refresh_room config r room).next_rooms k q
unfolding refresh_room
refresh_room-HasPoller config r room k q h = elim (Option-cases room.id) [
  | inl e ↦ rw (e, refresh_room) h
  | inr (id, e) ↦
      let (x, n, same, other) = refresh_room-IsStep config r room id e in
      subst (λ z. HasPoller z k q) (sym n)
        (insert-HasPoller r.next_rooms id k x q (same k q (inl h)) (λ s. h))
]

refresh_loop-next :
    (config : PollingConfig) (r : Refreshing) (rooms : List Room) (k : String) (q : MessagePoller)
    → Holds r k q
    → HasPoller r.next_rooms k q ⊎ IsDiscovered k rooms
    → HasPoller (refresh_loop config r rooms).next_rooms k q
unfolding refresh_loop
refresh_loop-next config r [] k q h (inl x) = x
refresh_loop-next config r [] k q h (inr x) = absurd x
refresh_loop-next config r (room ∷ rooms) k q h (inl x) =
    let y = refresh_room-HasPoller config r room k q x in
    refresh_loop-next config (refresh_room config r room) rooms k q (inl y) (inl y)
refresh_loop-next config r (room ∷ rooms) k q h (inr (inl i)) =
    let y = (refresh_room-Holds config r room k q h).1 i in
    refresh_loop-next config (refresh_room config r room) rooms k q (inl y) (inl y)
refresh_loop-next config r (room ∷ rooms) k q h (inr (inr j)) =
    refresh_loop-next config (refresh_room config r room) rooms k q
      (refresh_room-Holds config r room k q h).0 (inr j)

-- A refresh whose discovery succeeds leaves a room that was active and is discovered active, with the same
-- poller.
pub refresh_rooms-HasPoller :
    (p : MultiRoomMessagePoller) (discovered : List Room) (now : ℕ) (k : String) (q : MessagePoller)
    → HasPoller p.rooms k q
    → IsDiscovered k discovered
    → HasPoller (refresh_rooms p (ok discovered) now).1.rooms k q
unfolding refresh_rooms
refresh_rooms-HasPoller p discovered now k q h d =
    refresh_loop-next p.config.room_polling (refreshing p) discovered k q (inr (get-nil k, h))
      (inr d)
  where
    get-nil : (k : String) → get {V = RoomPollerEntry} k [] ≡ none
    get-nil k = unfold get in refl
