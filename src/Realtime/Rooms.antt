-- ===== src/Realtime/Rooms.antt =====
-- src/realtime.rs: the state of `MultiRoomMessagePoller`, its constructors and its rooms.
pub mod Inactive
pub mod Refresh
pub mod Batch
pub mod Discovery
use webex_headless_messenger.Common.{
  ℕ, String, Bool, true, false, not, ◌&&◌, Option, none, some, List, [], ◌∷◌, map, str_eq,
  if◌then◌else◌, leb, ◌-◌,
}
use webex_headless_messenger.Common.OrderedMap.{OrderedMap, get, insert, remove}
use webex_headless_messenger.Checkpoint.{RoomCheckpoint}
use webex_headless_messenger.Message.{Message, Room}
use webex_headless_messenger.Realtime.Config.{
  PollingConfig, RoomDiscoveryConfig, MultiRoomPollingConfig, default_multi_room,
}
use webex_headless_messenger.Realtime.Poller.{MessagePoller, set_config, replace_checkpoint}

pub record RoomMessage : Type 0 where
  pub room_id : String
  pub room : Room
  pub message : Message

pub record RoomPollerEntry : Type 0 where
  pub room : Room
  pub poller : MessagePoller

-- The values of `checkpoints`: the seed of a poller, and whether it initializes an empty room.
abbrev pub Seed : Type 0
Seed = List String × Bool

-- `last_room_discovery` is an instant of the monotonic clock.
pub record MultiRoomMessagePoller : Type 0 where
  pub config : MultiRoomPollingConfig
  pub rooms : OrderedMap RoomPollerEntry
  pub inactive_rooms : OrderedMap RoomPollerEntry
  pub inactive_room_order : List String
  pub checkpoints : OrderedMap Seed
  pub rooms_initialized : Bool
  pub last_room_discovery : Option ℕ

-- `MultiRoomMessagePoller::new`.
abbrev pub new_multi : MultiRoomMessagePoller
new_multi = record {
  config = default_multi_room;
  rooms = [];
  inactive_rooms = [];
  inactive_room_order = [];
  checkpoints = [];
  rooms_initialized = false;
  last_room_discovery = none;
}

-- The loops over `values_mut`.
unfoldable pub configure_rooms :
    PollingConfig → OrderedMap RoomPollerEntry → OrderedMap RoomPollerEntry
unfolding set_config
configure_rooms c [] = []
configure_rooms c ((k, e) ∷ m) =
    (k, record e { poller = set_config e.poller c }) ∷ configure_rooms c m

abbrev same_option : Option String → Option String → Bool
same_option none none = true
same_option (some a) (some b) = str_eq a b
same_option none (some b) = false
same_option (some a) none = false

abbrev same_nat : ℕ → ℕ → Bool
same_nat a b = leb a b && leb b a

-- The derived `PartialEq` of `RoomDiscoveryConfig`.
unfoldable pub same_discovery : RoomDiscoveryConfig → RoomDiscoveryConfig → Bool
same_discovery a b =
    same_nat a.page_size b.page_size
    && same_nat a.max_rooms b.max_rooms
    && same_option a.room_type b.room_type
    && same_option a.team_id b.team_id
    && same_option a.sort_by b.sort_by

-- `MultiRoomMessagePoller::with_config`.
unfoldable pub with_config :
    MultiRoomMessagePoller → MultiRoomPollingConfig → MultiRoomMessagePoller
unfolding configure_rooms same_discovery
with_config p config =
    let q = record p {
      config = config;
      rooms = configure_rooms config.room_polling p.rooms;
      inactive_rooms = configure_rooms config.room_polling p.inactive_rooms;
    } in
    if same_discovery p.config.discovery config.discovery
    then q
    else record q { rooms_initialized = false; last_room_discovery = none }

-- `collect` into a `BTreeMap`: a later checkpoint of a room replaces an earlier one.
unfoldable pub collect_checkpoints : List RoomCheckpoint → OrderedMap Seed → OrderedMap Seed
collect_checkpoints [] m = m
collect_checkpoints (c ∷ cs) m =
    collect_checkpoints cs (insert c.room_id (c.seen_message_ids, c.initialize_empty) m)

abbrev replaced : RoomPollerEntry → Option Seed → RoomPollerEntry
replaced e none = e
replaced e (some seed) = record e { poller = replace_checkpoint e.poller seed.0 seed.1 }

-- A loop over the rooms that gives each its checkpoint; the checkpoints left are the second component.
unfoldable pub replace_checkpoints :
    OrderedMap RoomPollerEntry → OrderedMap Seed → OrderedMap RoomPollerEntry × OrderedMap Seed
unfolding replace_checkpoint
replace_checkpoints [] seeds = ([], seeds)
replace_checkpoints ((k, e) ∷ m) seeds =
    let rest = replace_checkpoints m (remove k seeds) in
    ((k, replaced e (get k seeds)) ∷ rest.0, rest.1)

-- `MultiRoomMessagePoller::with_room_checkpoints`.
unfoldable pub with_room_checkpoints :
    MultiRoomMessagePoller → List RoomCheckpoint → MultiRoomMessagePoller
unfolding collect_checkpoints replace_checkpoints
with_room_checkpoints p checkpoints =
    let active = replace_checkpoints p.rooms (collect_checkpoints checkpoints []) in
    let inactive = replace_checkpoints p.inactive_rooms active.1 in
    record p { rooms = active.0; inactive_rooms = inactive.0; checkpoints = inactive.1 }

-- `room_ids`.
unfoldable pub room_ids : MultiRoomMessagePoller → List String
room_ids p = map (λ (e : String × RoomPollerEntry). e.0) p.rooms

-- `room_refresh_due`, at an instant of the monotonic clock; `elapsed` stops at 0.
unfoldable pub room_refresh_due : MultiRoomMessagePoller → ℕ → Bool
room_refresh_due p now = elim p.last_room_discovery [
  | none ↦ false
  | some last ↦ leb p.config.room_refresh_interval (now - last)
]
