-- ===== src/Realtime/Rooms/Batch.antt =====
-- src/realtime.rs: `MultiRoomMessagePoller::poll_once` and the polls of its rooms. The order in which the
-- rooms' polls end and the polls that are too late are the runtime's, and so are the instants.
pub mod Held
use Prim.Native.Nat.{Ordering, compare}
use webex_headless_messenger.Common.{
  ℕ, zero, suc, ◌+◌, String, Bool, true, false, not, ◌&&◌, ◌||◌, Option, none, some, List, [], ◌∷◌,
  ◌++◌, map, reverse, str_eq, if◌then◌else◌, Error, room_poll, poll_timed_out, Result, ok, err,
}
use webex_headless_messenger.Common.OrderedMap.{OrderedMap, get, insert, str_lt}
use webex_headless_messenger.Checkpoint.{RoomCheckpoint}
use webex_headless_messenger.Message.{Message, Room}
use webex_headless_messenger.Realtime.Config.{effective_poll_interval}
use webex_headless_messenger.Realtime.Poller.{
  MessagePoller, MessagePollUpdate, MessagePollError, Transaction, completed, interrupted,
  WebexClient, is_empty, has_pending_backlog, poll_once_transaction_before, checkpoint_after_update,
  apply_update,
}
use webex_headless_messenger.Realtime.Rooms.{
  RoomMessage, RoomPollerEntry, MultiRoomMessagePoller, room_refresh_due,
}
use webex_headless_messenger.Realtime.Rooms.Refresh.{
  refresh_rooms, discover_joined_rooms_with_timeout,
}

pub record MultiRoomPoll : Type 0 where
  pub events : List (Result RoomMessage)
  pub checkpoints : List RoomCheckpoint

pub record IndexedRoomMessage : Type 0 where
  pub sequence : ℕ
  pub message : RoomMessage

pub record RoomPollBatch : Type 0 where
  pub messages : List IndexedRoomMessage
  pub errors : List (Result RoomMessage)
  pub completed_updates : List (String × MessagePollUpdate)
  pub has_backlog : Bool

-- `RoomPollResult`.
pub data RoomPollResult : Type 0 where
  in_time : Transaction → RoomPollResult
  timed_out : ℕ → RoomPollResult

-- What the runtime decides in one poll.
pub record Runtime : Type 0 where
  pub discovered : Result (List Room)
  pub discovery_is_late : Bool
  pub checked_at : ℕ
  pub discovered_at : ℕ
  pub batch_cutoff : ℕ
  pub completion : OrderedMap RoomPollerEntry → List (String × RoomPollerEntry)
  pub is_late : String → Bool

abbrev then_with : Ordering → Ordering → Ordering
then_with Ordering.eq o = o
then_with Ordering.lt o = Ordering.lt
then_with Ordering.gt o = Ordering.gt

abbrev str_cmp : String → String → Ordering
str_cmp a b = if str_lt a b then Ordering.lt else if str_eq a b then Ordering.eq else Ordering.gt

-- `Option: Ord`, where `None` is the least.
abbrev option_cmp : {A : Type 0} → (A → A → Ordering) → Option A → Option A → Ordering
option_cmp cmp none none = Ordering.eq
option_cmp cmp none (some b) = Ordering.lt
option_cmp cmp (some a) none = Ordering.gt
option_cmp cmp (some a) (some b) = cmp a b

unfoldable pub compare_indexed_room_messages : IndexedRoomMessage → IndexedRoomMessage → Ordering
compare_indexed_room_messages left right =
    then_with (option_cmp compare left.message.message.created right.message.message.created) (
      then_with (str_cmp left.message.room_id right.message.room_id) (
        then_with (compare left.sequence right.sequence)
          (option_cmp str_cmp left.message.message.id right.message.message.id)))

abbrev is_greater : Ordering → Bool
is_greater Ordering.gt = true
is_greater Ordering.lt = false
is_greater Ordering.eq = false

-- `sort_by`, a stable sort.
unfoldable pub insert_by : {A : Type 0} → (A → A → Ordering) → A → List A → List A
insert_by cmp x [] = x ∷ []
insert_by cmp x (y ∷ ys) =
    let rest = insert_by cmp x ys in if is_greater (cmp x y) then y ∷ rest else x ∷ y ∷ ys

unfoldable pub sort_by : {A : Type 0} → (A → A → Ordering) → List A → List A
sort_by cmp [] = []
sort_by cmp (x ∷ xs) = insert_by cmp x (sort_by cmp xs)

-- `poll_room_once`; `is_late` says whether the timeout, if there is one, ends it.
unfoldable pub poll_room_once : WebexClient → MessagePoller → Option ℕ → ℕ → Bool → RoomPollResult
poll_room_once client poller none before is_late =
    in_time (poll_once_transaction_before client poller (some before))
poll_room_once client poller (some timeout) before is_late =
    if is_late
    then timed_out timeout
    else in_time (poll_once_transaction_before client poller (some before))

-- The loop over `update.messages.iter().enumerate()`.
unfoldable pub index_messages : ℕ → String → Room → List Message → List IndexedRoomMessage
index_messages sequence room_id room [] = []
index_messages sequence room_id room (m ∷ ms) =
    record { sequence = sequence; message = record { room_id = room_id; room = room; message = m } }
    ∷ index_messages (suc sequence) room_id room ms

abbrev room_error : String → Error → Result RoomMessage
room_error room_id e = err (room_poll room_id e)

-- The body of the `while` loop for a room's poll.
unfoldable pub batch_room :
    RoomPollBatch → String → RoomPollerEntry → RoomPollResult → RoomPollBatch
batch_room b room_id entry (in_time (completed update)) = record {
  messages = b.messages ++ index_messages 0 room_id entry.room update.messages;
  errors = b.errors;
  completed_updates = b.completed_updates ++ (room_id, update) ∷ [];
  has_backlog = b.has_backlog || not update.commit_seen;
}
batch_room b room_id entry (in_time (interrupted error)) =
    let errors = b.errors ++ room_error room_id error.error ∷ [] in
    elim error.update [
      | some update ↦ record b {
        errors = errors;
        completed_updates = b.completed_updates ++ (room_id, update) ∷ [];
        has_backlog = b.has_backlog || not update.commit_seen;
      }
      | none ↦ record b {
        errors = errors;
        has_backlog = b.has_backlog || has_pending_backlog entry.poller;
      }
    ]
batch_room b room_id entry (timed_out timeout) = record b {
  errors = b.errors ++ room_error room_id (poll_timed_out (effective_poll_interval timeout)) ∷ [];
  has_backlog = b.has_backlog || has_pending_backlog entry.poller;
}

unfoldable pub batch_loop :
    WebexClient
    → Option ℕ
    → Runtime
    → RoomPollBatch
    → List (String × RoomPollerEntry)
    → RoomPollBatch
batch_loop client timeout rt b [] = b
batch_loop client timeout rt b ((room_id, entry) ∷ rooms) =
    batch_loop client timeout rt
      (batch_room b room_id entry
        (poll_room_once client entry.poller timeout rt.batch_cutoff (rt.is_late room_id)))
      rooms

abbrev pub empty_batch : RoomPollBatch
empty_batch = record { messages = []; errors = []; completed_updates = []; has_backlog = false }

unfoldable pub poll_rooms_concurrently :
    WebexClient → MultiRoomMessagePoller → Runtime → RoomPollBatch
poll_rooms_concurrently client p rt =
    batch_loop client p.config.room_poll_timeout rt empty_batch (rt.completion p.rooms)

-- While a room has a backlog, an update with messages is kept as pending.
unfoldable pub hold_back : Bool → MessagePollUpdate → MessagePollUpdate
hold_back has_backlog update =
    if has_backlog && update.commit_seen && not (is_empty update.messages)
    then record update {
      messages = [];
      pending_fresh = reverse update.messages;
      pending_seen_ids = update.seen_ids;
      seen_ids = [];
      commit_seen = false;
    }
    else update

abbrev push_checkpoint : Option RoomCheckpoint → List RoomCheckpoint → List RoomCheckpoint
push_checkpoint none cs = cs
push_checkpoint (some c) cs = c ∷ cs

-- The loop over the updates: the checkpoints and the rooms after it.
unfoldable pub apply_updates :
    Bool
    → OrderedMap RoomPollerEntry
    → List (String × MessagePollUpdate)
    → List RoomCheckpoint × OrderedMap RoomPollerEntry
apply_updates has_backlog rooms [] = ([], rooms)
apply_updates has_backlog rooms ((room_id, update) ∷ updates) =
    let held = hold_back has_backlog update in
    elim (get room_id rooms) [
      | none ↦ apply_updates has_backlog rooms updates
      | some current ↦
          let rest =
            apply_updates has_backlog
              (insert room_id (record current { poller = apply_update current.poller held }) rooms)
              updates in
          (push_checkpoint (checkpoint_after_update current.poller room_id held) rest.0, rest.1)
    ]

abbrev delivered : IndexedRoomMessage → Result RoomMessage
delivered m = ok m.message

-- The events of a batch, after those of the refresh.
unfoldable pub batch_events : RoomPollBatch → List (Result RoomMessage) → List (Result RoomMessage)
batch_events b errors =
    (if b.has_backlog then [] else map delivered (sort_by compare_indexed_room_messages b.messages))
    ++ errors
    ++ b.errors

abbrev cmp_room_id : RoomCheckpoint → RoomCheckpoint → Ordering
cmp_room_id left right = str_cmp left.room_id right.room_id

-- The part of `poll_once` that follows the refresh.
unfoldable pub poll_batch :
    WebexClient
    → MultiRoomMessagePoller
    → Runtime
    → List (Result RoomMessage)
    → MultiRoomPoll × MultiRoomMessagePoller
poll_batch client p rt errors =
    let b = poll_rooms_concurrently client p rt in
    let (checkpoints, rooms) = apply_updates b.has_backlog p.rooms b.completed_updates in
    (
      record { events = batch_events b errors; checkpoints = sort_by cmp_room_id checkpoints },
      record p { rooms = rooms },
    )

abbrev after_refresh :
    MultiRoomMessagePoller → Runtime → Result (List Room) × MultiRoomMessagePoller
after_refresh p rt =
    refresh_rooms p
      (discover_joined_rooms_with_timeout rt.discovered p.config.room_discovery_timeout
        rt.discovery_is_late)
      rt.discovered_at

abbrev polled :
    MultiRoomPoll × MultiRoomMessagePoller → Result MultiRoomPoll × MultiRoomMessagePoller
polled (poll, p) = (ok poll, p)

abbrev error_of : Result (List Room) → List (Result RoomMessage)
error_of (ok rooms) = []
error_of (err e) = err e ∷ []

abbrev after_first :
    WebexClient
    → Runtime
    → Result (List Room) × MultiRoomMessagePoller
    → Result MultiRoomPoll × MultiRoomMessagePoller
after_first client rt (err e, p) = (err e, p)
after_first client rt (ok rooms, p) = polled (poll_batch client p rt [])

-- `MultiRoomMessagePoller::poll_once`.
unfoldable pub poll_rooms_once :
    WebexClient → MultiRoomMessagePoller → Runtime → Result MultiRoomPoll × MultiRoomMessagePoller
poll_rooms_once client p rt =
    if not p.rooms_initialized
    then after_first client rt (after_refresh p rt)
    else if room_refresh_due p rt.checked_at
    then (let r = after_refresh p rt in polled (poll_batch client r.1 rt (error_of r.0)))
    else polled (poll_batch client p rt [])
