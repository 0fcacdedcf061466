-- ===== src/Realtime/Rooms/Refresh.antt =====
-- src/realtime.rs: `refresh_rooms`. The discovery that it awaits is an argument: the rooms, or an error.
pub mod Kept
use webex_headless_messenger.Common.{
  ℕ, String, Bool, true, false, ◌&&◌, Option, none, some, List, [], ◌∷◌, if◌then◌else◌, Error,
  Result, ok, err, discovery_timed_out,
}
use webex_headless_messenger.Common.OrderedMap.{OrderedMap, get, insert, remove}
use webex_headless_messenger.Message.{Room}
use webex_headless_messenger.Realtime.Config.{PollingConfig, effective_poll_interval}
use webex_headless_messenger.Realtime.Poller.{
  MessagePoller, new, set_config, is_empty, with_seen_message_ids, with_empty_seen_boundary,
}
use webex_headless_messenger.Realtime.Rooms.{RoomPollerEntry, MultiRoomMessagePoller, Seed}
use webex_headless_messenger.Realtime.Rooms.Inactive.{
  Inactive, retain_ids, differs, remember_inactive_room, prune_inactive_rooms,
}

-- `discover_joined_rooms_with_timeout`: what the discovery would return, and whether it is too late.
unfoldable pub discover_joined_rooms_with_timeout :
    Result (List Room) → Option ℕ → Bool → Result (List Room)
discover_joined_rooms_with_timeout discovered none is_late = discovered
discover_joined_rooms_with_timeout discovered (some timeout) is_late =
    if is_late then err (discovery_timed_out (effective_poll_interval timeout)) else discovered

-- The collections that the loop over the discovered rooms changes.
pub record Refreshing : Type 0 where
  pub next_rooms : OrderedMap RoomPollerEntry
  pub rooms : OrderedMap RoomPollerEntry
  pub next_inactive : Inactive

-- A new poller, seeded with the room's checkpoint.
unfoldable pub seeded_poller : PollingConfig → String → Option Seed → MessagePoller
seeded_poller config room_id seed =
    let poller = set_config (new room_id) config in
    elim seed [
      | none ↦ poller
      | some (seen_ids, initialize_empty) ↦
          if is_empty seen_ids && initialize_empty
          then with_empty_seen_boundary poller
          else with_seen_message_ids poller seen_ids
    ]

abbrev with_room : Room → RoomPollerEntry → RoomPollerEntry
with_room room e = record e { room = room }

-- A discovered room that is not among the active ones, from the inactive ones or new.
unfoldable pub revive_room : PollingConfig → Refreshing → String → Room → Refreshing
revive_room config r room_id room = elim (get room_id r.next_inactive.inactive_rooms) [
  | some existing ↦ record r {
    next_rooms = insert room_id (with_room room existing) r.next_rooms;
    next_inactive = record r.next_inactive {
      inactive_rooms = remove room_id r.next_inactive.inactive_rooms;
      inactive_room_order = retain_ids (differs room_id) r.next_inactive.inactive_room_order;
    };
  }
  | none ↦ record r {
    next_rooms =
        insert room_id
          (record {
            room = room;
            poller = seeded_poller config room_id (get room_id r.next_inactive.checkpoints);
          })
          r.next_rooms;
    next_inactive = record r.next_inactive {
      checkpoints = remove room_id r.next_inactive.checkpoints;
    };
  }
]

-- The body of the loop.
unfoldable pub refresh_room : PollingConfig → Refreshing → Room → Refreshing
refresh_room config r room = elim room.id [
  | none ↦ r
  | some room_id ↦ elim (get room_id r.next_rooms) [
    | some existing ↦ record r {
      next_rooms = insert room_id (with_room room existing) r.next_rooms;
    }
    | none ↦ elim (get room_id r.rooms) [
      | some existing ↦ record r {
        next_rooms = insert room_id (with_room room existing) r.next_rooms;
        rooms = remove room_id r.rooms;
      }
      | none ↦ revive_room config r room_id room
    ]
  ]
]

unfoldable pub refresh_loop : PollingConfig → Refreshing → List Room → Refreshing
refresh_loop config r [] = r
refresh_loop config r (room ∷ rooms) = refresh_loop config (refresh_room config r room) rooms

-- The loop over the rooms that were not discovered.
unfoldable pub remember_rooms : Inactive → OrderedMap RoomPollerEntry → Inactive
remember_rooms i [] = i
remember_rooms i ((room_id, entry) ∷ rooms) =
    remember_rooms (remember_inactive_room i room_id entry) rooms

abbrev pub refreshing : MultiRoomMessagePoller → Refreshing
refreshing p = record {
  next_rooms = [];
  rooms = p.rooms;
  next_inactive = record {
    inactive_rooms = p.inactive_rooms;
    inactive_room_order = p.inactive_room_order;
    checkpoints = p.checkpoints;
  };
}

-- `refresh_rooms_with_discovery_timeout`, when the discovery has ended at the instant `now`.
unfoldable pub refresh_rooms :
    MultiRoomMessagePoller → Result (List Room) → ℕ → Result (List Room) × MultiRoomMessagePoller
refresh_rooms p (err e) now = (err e, record p { last_room_discovery = some now })
refresh_rooms p (ok discovered) now =
    let r = refresh_loop p.config.room_polling (refreshing p) discovered in
    let i =
      prune_inactive_rooms (remember_rooms r.next_inactive r.rooms) p.config.max_inactive_rooms in
    (
      ok discovered,
      record p {
        rooms = r.next_rooms;
        inactive_rooms = i.inactive_rooms;
        inactive_room_order = i.inactive_room_order;
        checkpoints = i.checkpoints;
        rooms_initialized = true;
        last_room_discovery = some now;
      },
    )
