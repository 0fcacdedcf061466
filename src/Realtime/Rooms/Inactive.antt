-- ===== src/Realtime/Rooms/Inactive.antt =====
-- src/realtime.rs: the pollers of rooms that have disappeared, `remember_inactive_room` and
-- `prune_inactive_rooms`.
pub mod Prune
pub mod Saved
use webex_headless_messenger.Common.{
  ℕ, zero, suc, String, Bool, true, false, not, Option, none, some, List, [], ◌∷◌, ◌++◌, length,
  max, ltb, str_eq, if◌then◌else◌,
}
use webex_headless_messenger.Common.OrderedMap.{OrderedMap, get, contains_key, insert, remove}
use webex_headless_messenger.Checkpoint.{RoomCheckpoint}
use webex_headless_messenger.Realtime.Poller.{has_pending_backlog, current_checkpoint}
use webex_headless_messenger.Realtime.Rooms.{RoomPollerEntry, Seed}

-- The three collections that the functions are given.
pub record Inactive : Type 0 where
  pub inactive_rooms : OrderedMap RoomPollerEntry
  pub inactive_room_order : List String
  pub checkpoints : OrderedMap Seed

-- `VecDeque::retain`.
unfoldable pub retain_ids : (String → Bool) → List String → List String
retain_ids keep [] = []
retain_ids keep (x ∷ xs) = let rest = retain_ids keep xs in if keep x then x ∷ rest else rest

abbrev pub differs : String → String → Bool
differs room_id other = not (str_eq other room_id)

unfoldable pub remember_inactive_room : Inactive → String → RoomPollerEntry → Inactive
remember_inactive_room i room_id entry = record i {
  inactive_rooms = insert room_id entry i.inactive_rooms;
  inactive_room_order = retain_ids (differs room_id) i.inactive_room_order ++ room_id ∷ [];
}

abbrev pub is_drained : RoomPollerEntry → Bool
is_drained entry = not (has_pending_backlog entry.poller)

-- `inactive_room_order.iter().find(..)`.
unfoldable pub find_ordered : OrderedMap RoomPollerEntry → List String → Option String
find_ordered rooms [] = none
find_ordered rooms (id ∷ ids) =
    let rest = find_ordered rooms ids in
    elim (get id rooms) [ none ↦ rest | some entry ↦ if is_drained entry then some id else rest ]

-- `inactive_rooms.iter().find_map(..)`.
unfoldable pub find_drained : OrderedMap RoomPollerEntry → Option String
find_drained [] = none
find_drained ((id, entry) ∷ rooms) =
    let rest = find_drained rooms in if is_drained entry then some id else rest

unfoldable pub removable_room_id : OrderedMap RoomPollerEntry → List String → Option String
removable_room_id rooms order = elim (find_ordered rooms order) [
  | some id ↦ some id
  | none ↦ find_drained rooms
]

-- The checkpoints, with that of a poller that is removed.
abbrev pub saved : String → Option RoomCheckpoint → OrderedMap Seed → OrderedMap Seed
saved room_id none checkpoints = checkpoints
saved room_id (some c) checkpoints =
    insert room_id (c.seen_message_ids, c.initialize_empty) checkpoints

-- The body of the loop for a room.
unfoldable pub prune_room : Inactive → String → Inactive
prune_room i room_id =
    let order = retain_ids (differs room_id) i.inactive_room_order in
    elim (get room_id i.inactive_rooms) [
      | none ↦ record i { inactive_room_order = order }
      | some entry ↦ record {
        inactive_rooms = remove room_id i.inactive_rooms;
        inactive_room_order = order;
        checkpoints = saved room_id (current_checkpoint entry.poller room_id) i.checkpoints;
      }
    ]

-- The `while` loop. A round removes a room, so as many rounds as rooms are enough.
unfoldable pub prune_loop : ℕ → ℕ → Inactive → Inactive
prune_loop zero limit i = i
prune_loop (suc rounds) limit i =
    if ltb limit (length i.inactive_rooms)
    then elim (removable_room_id i.inactive_rooms i.inactive_room_order) [
      | none ↦ i
      | some room_id ↦ prune_loop rounds limit (prune_room i room_id)
    ]
    else i

-- `inactive_room_order.retain(..)`: without the rooms that are no longer inactive.
abbrev pub reordered : Inactive → Inactive
reordered i = record i {
  inactive_room_order = retain_ids (λ id. contains_key id i.inactive_rooms) i.inactive_room_order;
}

unfoldable pub prune_inactive_rooms : Inactive → ℕ → Inactive
prune_inactive_rooms i max_inactive_rooms =
    prune_loop (length i.inactive_rooms) (max max_inactive_rooms 1) (reordered i)
