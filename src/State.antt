-- ===== src/State.antt =====
-- src/state.rs: the records of the state log and the snapshot that they build.
-- A `DateTime<Utc>` is its distance in nanoseconds from chrono's earliest instant, and a `Duration` its
-- nanoseconds.
pub mod Snapshot
pub mod Replay
pub mod Store
use webex_headless_messenger.Common.{
  ℕ, ◌-◌, String, Bool, true, false, not, Option, none, some, [], str_eq, ltb, ◌==◌, if◌then◌else◌,
  Error, unsupported_version, empty_message_id, empty_attempt_id, empty_checkpoint_id, Result, ok,
  err, ◌>>=◌, ◌>>◌,
}
use webex_headless_messenger.Common.OrderedMap
use webex_headless_messenger.Common.OrderedMap.{OrderedMap}
use webex_headless_messenger.Common.Text.{is_blank}
use webex_headless_messenger.Checkpoint.{RoomCheckpoint}

abbrev pub state_record_version : ℕ
state_record_version = 1

pub record AttemptLease : Type 0 where
  pub message_id : String
  pub attempt_id : String
  pub expires_at : ℕ

pub record AttemptLeaseStatus : Type 0 where
  pub message_id : String
  pub expires_at : ℕ

-- `impl From<&AttemptLease> for AttemptLeaseStatus`.
unfoldable pub lease_status : AttemptLease → AttemptLeaseStatus
lease_status attempt = record { message_id = attempt.message_id; expires_at = attempt.expires_at }

pub data StateEvent : Type 0 where
  -- message_id, processed_at
  processed_message : String → ℕ → StateEvent
  -- message_id, attempt_id, expires_at
  attempt_leased : String → String → ℕ → StateEvent
  -- message_id, attempt_id, released_at
  attempt_released : String → String → ℕ → StateEvent
  -- checkpoint, updated_at
  room_checkpoint : RoomCheckpoint → ℕ → StateEvent

pub record StateRecord : Type 0 where
  pub version : ℕ
  pub event : StateEvent

-- `StateRecord::new`.
unfoldable pub new_record : StateEvent → StateRecord
new_record event = record { version = state_record_version; event = event }

pub record StateSnapshot : Type 0 where
  pub processed_message_ids : OrderedMap (Unit {0})
  pub attempt_leases : OrderedMap AttemptLease
  pub room_checkpoints : OrderedMap RoomCheckpoint

-- `StateSnapshot::default`.
abbrev pub default_snapshot : StateSnapshot
default_snapshot = record { processed_message_ids = []; attempt_leases = []; room_checkpoints = [] }

unfoldable pub ensure_message_id : String → Result (Unit {0})
ensure_message_id message_id = if is_blank message_id then err empty_message_id else ok tt

unfoldable pub ensure_attempt_id : String → Result (Unit {0})
ensure_attempt_id attempt_id = if is_blank attempt_id then err empty_attempt_id else ok tt

-- `none` where the lease has run out: `to_std` fails before `now`, and a zero rest is no rest.
unfoldable pub remaining_lease : ℕ → ℕ → Option ℕ
remaining_lease expires_at now = if ltb now expires_at then some (expires_at - now) else none

unfoldable pub is_live : ℕ → AttemptLease → Bool
unfolding remaining_lease
is_live now attempt = elim (remaining_lease attempt.expires_at now) [ none ↦ false | some _ ↦ true ]

unfoldable pub contains_processed_message : StateSnapshot → String → Bool
contains_processed_message s message_id = OrderedMap.contains_key message_id s.processed_message_ids

unfoldable pub active_attempt_lease : StateSnapshot → String → Option AttemptLease
active_attempt_lease s message_id = OrderedMap.get message_id s.attempt_leases

unfoldable pub prune_expired_attempts : ℕ → StateSnapshot → StateSnapshot
prune_expired_attempts now s = record s {
  attempt_leases = OrderedMap.retain (is_live now) s.attempt_leases;
}

-- The guard of the `AttemptReleased` arm.
unfoldable pub is_owned_by : String → Option AttemptLease → Bool
is_owned_by attempt_id none = false
is_owned_by attempt_id (some active) = str_eq active.attempt_id attempt_id

-- The leases after each arm of `match record.event` that touches them.
unfoldable pub leases_granted : StateSnapshot → AttemptLease → ℕ → OrderedMap AttemptLease
leases_granted s attempt now =
    if OrderedMap.contains_key attempt.message_id s.processed_message_ids
    then OrderedMap.remove attempt.message_id s.attempt_leases
    else if ltb now attempt.expires_at
    then OrderedMap.insert attempt.message_id attempt s.attempt_leases
    else OrderedMap.remove attempt.message_id s.attempt_leases

unfoldable pub leases_released : StateSnapshot → String → String → OrderedMap AttemptLease
unfolding is_owned_by
leases_released s message_id attempt_id =
    if is_owned_by attempt_id (OrderedMap.get message_id s.attempt_leases)
    then OrderedMap.remove message_id s.attempt_leases
    else s.attempt_leases

-- The `match record.event` of `apply_record`. Nothing is changed before an error is returned.
unfoldable pub apply_event : StateSnapshot → StateEvent → ℕ → Result StateSnapshot
apply_event s (processed_message message_id _) now = do
  ensure_message_id message_id
  ok (record s {
    processed_message_ids = OrderedMap.insert message_id tt s.processed_message_ids;
    attempt_leases = OrderedMap.remove message_id s.attempt_leases;
  })
apply_event s (attempt_leased message_id attempt_id expires_at) now = do
  ensure_message_id message_id
  ensure_attempt_id attempt_id
  ok (record s {
    attempt_leases =
        leases_granted s
          (record { message_id = message_id; attempt_id = attempt_id; expires_at = expires_at })
          now;
  })
apply_event s (attempt_released message_id attempt_id _) now = do
  ensure_message_id message_id
  ensure_attempt_id attempt_id
  ok (record s { attempt_leases = leases_released s message_id attempt_id })
apply_event s (room_checkpoint checkpoint _) now =
    if is_blank checkpoint.room_id
    then err empty_checkpoint_id
    else ok (record s {
      room_checkpoints = OrderedMap.insert checkpoint.room_id checkpoint s.room_checkpoints;
    })

unfoldable pub apply_record : StateSnapshot → StateRecord → ℕ → Result StateSnapshot
apply_record s r now =
    if r.version == state_record_version
    then (do s' ← apply_event s r.event now; ok (prune_expired_attempts now s'))
    else err (unsupported_version r.version)
