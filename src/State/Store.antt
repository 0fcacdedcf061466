-- ===== src/State/Store.antt =====
-- src/state.rs: `JsonlStateStore`. Each method is an action on the world that it runs in: the state
-- file, the store's snapshot, the counter `NEXT_ATTEMPT_ID`, and the faults of the next writes. The lock of
-- the path is held throughout a method, so a method is one step.
pub mod Append
pub mod Torn
pub mod Synced
pub mod Recovery
pub mod Reload
pub mod Started
pub mod Durable
pub mod Owner
use Prim.Native.String.{◌++◌ as concat}
use webex_headless_messenger.Common.{
  ℕ, ◌+◌, ◌%◌, ◌^◌, String, Bool, true, false, ◌&&◌, Option, none, some, List, [], ◌∷◌, ◌++◌,
  length, take, str_eq, ltb, leb, ◌==◌, if◌then◌else◌, Error, io, json, lease_too_large,
  expiry_overflow, lease_not_active, Result, ok, err,
}
use webex_headless_messenger.Common.Exec.{Exec, pure, lift, gets, modify, ◌>>=◌, ◌>>◌}
use webex_headless_messenger.Common.Text.{display_u64}
use webex_headless_messenger.Checkpoint.{RoomCheckpoint}
use webex_headless_messenger.State.{
  AttemptLease, StateEvent, processed_message, attempt_leased, attempt_released, room_checkpoint,
  StateRecord, StateSnapshot, new_record, ensure_message_id, remaining_lease,
  contains_processed_message, active_attempt_lease, apply_record,
}
use webex_headless_messenger.State.Replay.{
  Codec, Disk, missing, file, unreadable, Truncation, newline, load_at, repair_incomplete_tail,
}

-- What the store uses of serde_json, chrono and the process: the codec, `timestamp_micros` as it is
-- printed, the process id as it is printed, the longest `chrono::Duration` and the last `DateTime`.
pub record Platform : Type 0 where
  pub codec : Codec
  pub timestamp_micros : ℕ → String
  pub process_id : String
  pub max_duration : ℕ
  pub max_utc : ℕ

-- Where an append fails: before the file is opened or created, before the first byte is written, or after some
-- bytes; after all of them where it is `flush`, `sync_all` or `sync_parent_dir` that fails.
pub data AppendFault : Type 0 where
  unopened unready : AppendFault
  stops_after : ℕ → AppendFault

-- `fault` is `none` where an append succeeds, and `truncation` is what the truncation of a repair does.
pub record World : Type 0 where
  pub disk : Disk
  pub snapshot : StateSnapshot
  pub next_attempt_id : ℕ
  pub fault : Option AppendFault
  pub truncation : Truncation

pub data AttemptStart : Type 0 where
  started : AttemptLease → AttemptStart
  processed : AttemptStart
  leased : ℕ → AttemptStart

abbrev pub one_second : ℕ
one_second = 1_000_000_000

abbrev pub u64_mod : ℕ
u64_mod = 2 ^ 64

-- `ensure_trailing_newline`: the bytes that it writes.
unfoldable pub missing_newline : List ℕ → List ℕ
missing_newline [] = []
missing_newline (b ∷ []) = if b == newline then [] else newline ∷ []
missing_newline (b ∷ c ∷ bs) = missing_newline (c ∷ bs)

abbrev pub bytes_of : Disk → List ℕ
bytes_of missing = []
bytes_of (file bytes) = bytes
bytes_of (unreadable e) = []

-- All that an append writes behind `bytes`.
unfoldable pub appended : Codec → List ℕ → StateRecord → List ℕ
appended c bytes r = missing_newline bytes ++ (c.to_writer r ++ newline ∷ [])

-- A write that fails inside `serde_json::to_writer` is an error of serde_json, and any other one of `io`.
unfoldable pub stop_error : Codec → StateRecord → List ℕ → ℕ → Error
stop_error c r bytes k =
    let start = length (missing_newline bytes) in
    if leb start k && ltb k (start + length (c.to_writer r)) then json else io

-- An append to a file that is opened with these bytes, and is `disk` where it cannot be.
abbrev pub append_bytes :
    Codec → StateRecord → Option AppendFault → Disk → List ℕ → Result (Unit {0}) × Disk
append_bytes c r none disk bytes = (ok tt, file (bytes ++ appended c bytes r))
append_bytes c r (some unopened) disk bytes = (err io, disk)
append_bytes c r (some unready) disk bytes = (err io, file bytes)
append_bytes c r (some (stops_after k)) disk bytes =
    (err (stop_error c r bytes k), file (bytes ++ take k (appended c bytes r)))

abbrev pub append_disk : Codec → StateRecord → Option AppendFault → Disk → Result (Unit {0}) × Disk
append_disk c r fault missing = append_bytes c r fault missing []
append_disk c r fault (file bytes) = append_bytes c r fault (file bytes) bytes
append_disk c r fault (unreadable e) = (err e, unreadable e)

unfoldable pub append_state_record : Codec → StateRecord → Exec World (Unit {0})
append_state_record c r w =
    let (result, disk) = append_disk c r w.fault w.disk in (result, record w { disk = disk })

abbrev pub repaired : Codec → ℕ → Exec World (Unit {0})
repaired c now w =
    let (result, disk) = repair_incomplete_tail c w.truncation w.disk now in
    (result, record w { disk = disk })

unfoldable pub refresh_at_unlocked : Codec → ℕ → Exec World (Unit {0})
refresh_at_unlocked c now w =
    (do
      repaired c now
      snapshot ← (λ w. lift (load_at c w.disk now) w)
      modify (λ w. record w { snapshot = snapshot }))
      w

unfoldable pub append_after_current_snapshot_unlocked :
    Codec → StateRecord → ℕ → Exec World (Unit {0})
append_after_current_snapshot_unlocked c r now w =
    (do
      next_snapshot ← (λ w. lift (apply_record w.snapshot r now) w)
      append_state_record c r
      modify (λ w. record w { snapshot = next_snapshot }))
      w

unfoldable pub lease_expires_at : Platform → ℕ → ℕ → Result ℕ
lease_expires_at p now lease =
    let lease = if lease == 0 then one_second else lease in
    if ltb p.max_duration lease
    then err lease_too_large
    else if leb (now + lease) p.max_utc
    then ok (now + lease)
    else err expiry_overflow

-- `format!("{}-{}-{sequence}", …)`.
unfoldable pub format_attempt_id : Platform → ℕ → ℕ → String
format_attempt_id p now sequence =
    concat (p.timestamp_micros now)
      (concat "-" (concat p.process_id (concat "-" (display_u64 sequence))))

-- `NEXT_ATTEMPT_ID.fetch_add(1, Relaxed)`, which wraps.
unfoldable pub fetch_add_attempt_id : Exec World ℕ
fetch_add_attempt_id w =
    (ok w.next_attempt_id, record w { next_attempt_id = (w.next_attempt_id + 1) % u64_mod })

unfoldable pub new_attempt_lease : Platform → String → ℕ → ℕ → Exec World AttemptLease
unfolding fetch_add_attempt_id
new_attempt_lease p message_id now lease = do
  lift (ensure_message_id message_id)
  sequence ← fetch_add_attempt_id
  expires_at ← lift (lease_expires_at p now lease)
  pure (record {
    message_id = message_id;
    attempt_id = format_attempt_id p now sequence;
    expires_at = expires_at;
  })

-- The test of the first arm of `ensure_attempt_owner`.
unfoldable pub owns : AttemptLease → ℕ → Option AttemptLease → Bool
owns attempt now none = false
owns attempt now (some active) =
    str_eq active.attempt_id attempt.attempt_id
    && elim (remaining_lease active.expires_at now) [ none ↦ false | some _ ↦ true ]

unfoldable pub ensure_attempt_owner : AttemptLease → ℕ → StateSnapshot → Result (Unit {0})
ensure_attempt_owner attempt now s = elim (ensure_message_id attempt.message_id) [
  | err e ↦ err e
  | ok _ ↦
      if owns attempt now (active_attempt_lease s attempt.message_id)
      then ok tt
      else err (lease_not_active attempt.attempt_id attempt.message_id)
]

-- The rest of an active lease of the message.
unfoldable pub active_rest : StateSnapshot → String → ℕ → Option ℕ
active_rest s message_id now = elim (active_attempt_lease s message_id) [
  | none ↦ none
  | some active ↦ remaining_lease active.expires_at now
]

unfoldable pub leased_event : AttemptLease → StateRecord
leased_event attempt =
    new_record (attempt_leased attempt.message_id attempt.attempt_id attempt.expires_at)

-- The tail of `begin_attempt_at`, once the message is neither processed nor leased.
unfoldable pub start_attempt : Platform → String → ℕ → ℕ → Exec World AttemptStart
start_attempt p message_id lease now = do
  attempt ← new_attempt_lease p message_id now lease
  append_after_current_snapshot_unlocked p.codec (leased_event attempt) now
  pure (started attempt)

-- `begin_attempt_at` after the refresh.
unfoldable pub begin_refreshed : Platform → String → ℕ → ℕ → Exec World AttemptStart
begin_refreshed p message_id lease now w =
    if contains_processed_message w.snapshot message_id
    then (ok processed, w)
    else elim (active_rest w.snapshot message_id now) [
      | some remaining ↦ (ok (leased remaining), w)
      | none ↦ start_attempt p message_id lease now w
    ]

unfoldable pub begin_attempt_at : Platform → String → ℕ → ℕ → Exec World AttemptStart
begin_attempt_at p message_id lease now = do
  lift (ensure_message_id message_id)
  refresh_at_unlocked p.codec now
  begin_refreshed p message_id lease now

unfoldable pub release_attempt_at : Platform → AttemptLease → ℕ → Exec World (Unit {0})
release_attempt_at p attempt now = do
  refresh_at_unlocked p.codec now
  (λ w. lift (ensure_attempt_owner attempt now w.snapshot) w)
  append_after_current_snapshot_unlocked p.codec
      (new_record (attempt_released attempt.message_id attempt.attempt_id now)) now

unfoldable pub defer_attempt_at : Platform → AttemptLease → ℕ → ℕ → Exec World (Unit {0})
defer_attempt_at p attempt lease now = do
  refresh_at_unlocked p.codec now
  (λ w. lift (ensure_attempt_owner attempt now w.snapshot) w)
  expires_at ← lift (lease_expires_at p now lease)
  append_after_current_snapshot_unlocked p.codec
      (new_record (attempt_leased attempt.message_id attempt.attempt_id expires_at)) now

unfoldable pub mark_refreshed : Platform → AttemptLease → ℕ → Exec World (Unit {0})
mark_refreshed p attempt now w =
    if contains_processed_message w.snapshot attempt.message_id
    then (ok tt, w)
    else (do
      (λ w. lift (ensure_attempt_owner attempt now w.snapshot) w)
      append_after_current_snapshot_unlocked p.codec
          (new_record (processed_message attempt.message_id now)) now)
        w

unfoldable pub mark_processed_at : Platform → AttemptLease → ℕ → Exec World (Unit {0})
mark_processed_at p attempt now = do refresh_at_unlocked p.codec now; mark_refreshed p attempt now

unfoldable pub save_room_checkpoint_at : Platform → RoomCheckpoint → ℕ → Exec World (Unit {0})
save_room_checkpoint_at p checkpoint now = do
  refresh_at_unlocked p.codec now
  append_after_current_snapshot_unlocked p.codec (new_record (room_checkpoint checkpoint now)) now

-- The `for` loop of `save_room_checkpoints`.
unfoldable pub save_each : Platform → ℕ → List RoomCheckpoint → Exec World (Unit {0})
save_each p now [] = pure tt
save_each p now (checkpoint ∷ rest) = do
  append_after_current_snapshot_unlocked p.codec (new_record (room_checkpoint checkpoint now)) now
  save_each p now rest

unfoldable pub save_room_checkpoints : Platform → List RoomCheckpoint → ℕ → Exec World (Unit {0})
save_room_checkpoints p checkpoints now = do
  refresh_at_unlocked p.codec now
  save_each p now checkpoints

-- `JsonlStateStore::load_at`, over the file alone: the repaired file and the first snapshot.
unfoldable pub load_store_at : Codec → Truncation → Disk → ℕ → Result StateSnapshot × Disk
load_store_at c t disk now = elim ((repair_incomplete_tail c t disk now).0) [
  | err e ↦ (err e, (repair_incomplete_tail c t disk now).1)
  | ok _ ↦ (
    load_at c (repair_incomplete_tail c t disk now).1 now,
    (repair_incomplete_tail c t disk now).1,
  )
]
