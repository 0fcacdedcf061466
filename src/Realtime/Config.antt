-- ===== src/Realtime/Config.antt =====
-- src/realtime.rs: the configurations and their defaults. A `Duration` is its nanoseconds.
use webex_headless_messenger.Common.{ℕ, ◌*◌, String, Bool, false, Option, none, some, max}

abbrev pub seconds : ℕ → ℕ
seconds n = n * 1_000_000_000

pub record PollingConfig : Type 0 where
  pub interval : ℕ
  pub page_size : ℕ
  pub max_pages_per_poll : ℕ
  pub emit_existing_on_first_poll : Bool
  pub max_seen_ids : ℕ
  pub max_pending_messages : ℕ

abbrev pub default_polling : PollingConfig
default_polling = record {
  interval = seconds 15;
  page_size = 50;
  max_pages_per_poll = 5;
  emit_existing_on_first_poll = false;
  max_seen_ids = 10_000;
  max_pending_messages = 10_000;
}

pub record RoomDiscoveryConfig : Type 0 where
  pub page_size : ℕ
  pub max_rooms : ℕ
  pub room_type : Option String
  pub team_id : Option String
  pub sort_by : Option String

abbrev pub default_discovery : RoomDiscoveryConfig
default_discovery = record {
  page_size = 100;
  max_rooms = 1_000;
  room_type = none;
  team_id = none;
  sort_by = none;
}

pub record MultiRoomPollingConfig : Type 0 where
  pub discovery : RoomDiscoveryConfig
  pub room_polling : PollingConfig
  pub room_refresh_interval : ℕ
  pub room_discovery_timeout : Option ℕ
  pub room_poll_timeout : Option ℕ
  pub max_concurrent_room_polls : ℕ
  pub max_inactive_rooms : ℕ

abbrev pub default_multi_room : MultiRoomPollingConfig
default_multi_room = record {
  discovery = default_discovery;
  room_polling = default_polling;
  room_refresh_interval = seconds 300;
  room_discovery_timeout = some (seconds 60);
  room_poll_timeout = some (seconds 60);
  max_concurrent_room_polls = 16;
  max_inactive_rooms = 1_000;
}

-- `effective_poll_interval`: at least a millisecond.
unfoldable pub effective_poll_interval : ℕ → ℕ
effective_poll_interval interval = max interval 1_000_000
