-- ===== src/Checkpoint.antt =====
-- src/realtime.rs: `RoomCheckpoint`, the durable seed of a room's poller, which the state log stores.
use webex_headless_messenger.Common.{String, Bool, true, false, List, []}

pub record RoomCheckpoint : Type 0 where
  pub room_id : String
  pub seen_message_ids : List String
  pub initialize_empty : Bool

-- `RoomCheckpoint::new`.
unfoldable pub new_checkpoint : String → List String → RoomCheckpoint
new_checkpoint room_id seen_message_ids = record {
  room_id = room_id;
  seen_message_ids = seen_message_ids;
  initialize_empty = false;
}

-- `RoomCheckpoint::known_empty`.
unfoldable pub known_empty : String → RoomCheckpoint
known_empty room_id = record { room_id = room_id; seen_message_ids = []; initialize_empty = true }
