-- ===== src/Scenarios/Rooms.antt =====
-- Runs of the poller of many rooms.
use webex_headless_messenger.Common.{
  ◌≡◌, refl, inl, true, false, none, some, [], ◌∷◌, max, io, ok, err,
}
use webex_headless_messenger.Common.OrderedMap.{get, contains_key}
use webex_headless_messenger.Message.{Room, Page}
use webex_headless_messenger.Realtime.Config.{default_discovery}
use webex_headless_messenger.Realtime.Seen.{seen_contains}
use webex_headless_messenger.Realtime.Page.{scan, collect_page_messages}
use webex_headless_messenger.Realtime.Poller.{
  page_loop, page_round, end_round, ensure_pending_within_limit, MessagePollUpdate, completed,
  deliver, poll_once_transaction_before, apply_update, has_pending_backlog,
}
use webex_headless_messenger.Realtime.Poller.Delivery.Polls.{IsSound}
use webex_headless_messenger.Realtime.Rooms.{RoomPollerEntry, MultiRoomMessagePoller, new_multi}
use webex_headless_messenger.Realtime.Rooms.Inactive.{Inactive, prune_inactive_rooms}
use webex_headless_messenger.Realtime.Rooms.Inactive.Saved.{
  IsKeptOrSaved, IsPrunedTo, prune-IsKeptOrSaved, prune-IsPrunedTo,
}
use webex_headless_messenger.Realtime.Rooms.Refresh.{refresh_rooms}
use webex_headless_messenger.Realtime.Rooms.Refresh.Kept.{HasPoller, refresh_rooms-HasPoller}
use webex_headless_messenger.Realtime.Rooms.Discovery.{
  RoomClient, ReturnsWithin, discover_joined_rooms, discover-ReturnsWithin,
}
use webex_headless_messenger.Realtime.Rooms.Batch.{
  Runtime, hold_back, poll_rooms_concurrently, batch_loop, batch_room, poll_room_once,
}
use webex_headless_messenger.Realtime.Rooms.Batch.Held.{hold_back-IsSound, hold_back-delivers}
use webex_headless_messenger.Scenarios.Polls.{message_of, two_messages, known_poller, known-IsSound}

-- The update of a poll that delivers two messages.
abbrev update : MessagePollUpdate
update = deliver (message_of "b" ∷ message_of "a" ∷ []) ("b" ∷ "a" ∷ [])

poll_new_messages : poll_once_transaction_before two_messages known_poller none ≡ completed update
unfolding poll_once_transaction_before page_loop page_round end_round collect_page_messages scan
    seen_contains ensure_pending_within_limit
poll_new_messages = refl

hold_back-delivers_example :
    poll_once_transaction_before two_messages
      (apply_update known_poller (hold_back true update))
      none
    ≡ completed update
hold_back-delivers_example =
    hold_back-delivers two_messages two_messages known_poller none none update known-IsSound
      poll_new_messages refl

hold_back-IsSound_example : IsSound (apply_update known_poller (hold_back true update))
hold_back-IsSound_example =
    hold_back-IsSound two_messages known_poller none update true known-IsSound poll_new_messages

abbrev room_r : Room
room_r = record {
  id = some "r";
  title = none;
  room_type = none;
  is_locked = none;
  team_id = none;
  last_activity = none;
  creator_id = none;
  created = none;
  owner_id = none;
  classification_id = none;
  is_announcement_only = none;
  is_read_only = none;
  is_public = none;
  made_public = none;
  description = none;
}

abbrev entry_r : RoomPollerEntry
entry_r = record { room = room_r; poller = known_poller }

-- The poll of the room's backlog is too late.
abbrev late_rooms : MultiRoomMessagePoller
late_rooms = record new_multi {
  rooms =
      ("r", record { room = room_r; poller = record known_poller { backlog_next = some "next" } })
      ∷ [];
}

abbrev late_runtime : Runtime
late_runtime = record {
  discovered = ok [];
  discovery_is_late = false;
  checked_at = 0;
  discovered_at = 0;
  batch_cutoff = 0;
  completion = λ rooms. rooms;
  is_late = λ room_id. true;
}

late_backlog : (poll_rooms_concurrently two_messages late_rooms late_runtime).has_backlog ≡ true
unfolding poll_rooms_concurrently batch_loop batch_room poll_room_once has_pending_backlog
late_backlog = refl

-- Two inactive rooms.
abbrev inactive : Inactive
inactive = record {
  inactive_rooms = ("r", entry_r) ∷ ("s", entry_r) ∷ [];
  inactive_room_order = "s" ∷ "r" ∷ [];
  checkpoints = [];
}

prune-IsKeptOrSaved_example : IsKeptOrSaved (prune_inactive_rooms inactive 1) "r" entry_r
unfolding get contains_key
prune-IsKeptOrSaved_example = prune-IsKeptOrSaved inactive 1 "r" entry_r (refl, (refl, tt)) refl

prune-IsPrunedTo_example : IsPrunedTo (max 1 1) (prune_inactive_rooms inactive 1)
unfolding contains_key
prune-IsPrunedTo_example = prune-IsPrunedTo inactive 1 (refl, (refl, tt))

abbrev one_room : MultiRoomMessagePoller
one_room = record new_multi { rooms = ("r", entry_r) ∷ [] }

refresh_rooms-HasPoller_example :
    HasPoller (refresh_rooms one_room (ok (room_r ∷ [])) 7).1.rooms "r" known_poller
unfolding get
refresh_rooms-HasPoller_example =
    refresh_rooms-HasPoller one_room (room_r ∷ []) 7 "r" known_poller (entry_r, refl, refl)
      (inl refl)

abbrev page_of_rooms : Page Room
page_of_rooms = record { items = room_r ∷ []; next = none }

abbrev room_client : RoomClient
room_client = record { list_rooms = λ request. ok page_of_rooms; next_page = λ link. err io }

discover-ReturnsWithin_example :
    ReturnsWithin (max 1_000 1) (discover_joined_rooms room_client default_discovery 1)
discover-ReturnsWithin_example =
    discover-ReturnsWithin room_client default_discovery 0 page_of_rooms refl refl
