-- ===== src/Scenarios/Log.antt =====
-- Runs of the state log, with a codec that knows two records.
use webex_headless_messenger.Common.{
  ℕ, zero, suc, ◌<◌, ◌≡◌, refl, Bool, true, false, ◌&&◌, none, some, List, [], ◌∷◌, ◌++◌, take,
  arith, ◌==◌, if◌then◌else◌, Error, ok, err, bad_json,
}
use webex_headless_messenger.Common.OrderedMap
use webex_headless_messenger.Common.Text.{
  is_blank, trim, trim_start, is_whitespace, from_utf8, utf8_loop, utf8_byte, display_u64,
  display_digits,
}
use webex_headless_messenger.State.{
  AttemptLease, processed_message, attempt_leased, attempt_released, room_checkpoint, StateRecord,
  new_record, StateSnapshot, default_snapshot, ensure_message_id, ensure_attempt_id,
  remaining_lease, is_live, contains_processed_message, active_attempt_lease,
  prune_expired_attempts, is_owned_by, leases_granted, leases_released, apply_event, apply_record,
}
use webex_headless_messenger.State.Snapshot.{
  IsConsistent, default-IsConsistent, apply_record-IsConsistent,
}
use webex_headless_messenger.State.Replay.{
  Codec, Disk, missing, file, truncates, refuses, split_lines, decode_line, line_outcome,
  parse_loop, parse_snapshot_bytes, load_at, repair_incomplete_tail,
}
use webex_headless_messenger.State.Replay.Intact.{repair-repair}
use webex_headless_messenger.State.Replay.Times.{
  load_at-IsConsistent, SameLog, apply_record-SameLog, SameLog-refl,
}
use webex_headless_messenger.State.Store.{
  Platform, World, stops_after, started, processed, leased, begin_attempt_at, mark_processed_at,
  mark_refreshed, release_attempt_at, defer_attempt_at, refresh_at_unlocked, begin_refreshed,
  start_attempt, new_attempt_lease, fetch_add_attempt_id, lease_expires_at, format_attempt_id,
  append_after_current_snapshot_unlocked, append_state_record, appended, missing_newline,
  active_rest, leased_event, ensure_attempt_owner, owns,
}
use webex_headless_messenger.State.Store.Append.{JsonLine}
use webex_headless_messenger.State.Store.Torn.{LoadsEither, append_atomic}
use webex_headless_messenger.State.Store.Synced.{Intact-nil}
use webex_headless_messenger.State.Store.Recovery.{IsWriteError, Recovers, append_after_fault}
use webex_headless_messenger.State.Store.Owner.{IsOwner, release-IsOwner, defer-IsOwner}
use webex_headless_messenger.State.Store.Durable.{begin_attempt-exclusive, mark_processed-durable}

abbrev lease_a : AttemptLease
lease_a = record { message_id = "m"; attempt_id = "7-1-0"; expires_at = 15 }

abbrev leased_record : StateRecord
leased_record = record { version = 1; event = attempt_leased "m" "7-1-0" 15 }

abbrev processed_record : StateRecord
processed_record = record { version = 1; event = processed_message "m" 11 }

abbrev same_text : List ℕ → List ℕ → Bool
same_text [] [] = true
same_text [] (y ∷ ys) = false
same_text (x ∷ xs) [] = false
same_text (x ∷ xs) (y ∷ ys) = x == y && same_text xs ys

-- "ab" is the lease and "cd" the processed message; other texts are not JSON.
abbrev codec : Codec
codec = record {
  from_str = λ text.
      if same_text text (97 ∷ 98 ∷ [])
      then some leased_record
      else if same_text text (99 ∷ 100 ∷ [])
      then some processed_record
      else none;
  to_writer = λ r. elim r.event [
    | processed_message _ _ ↦ 99 ∷ 100 ∷ []
    | attempt_leased _ _ _ ↦ 97 ∷ 98 ∷ []
    | attempt_released _ _ _ ↦ 101 ∷ []
    | room_checkpoint _ _ ↦ 102 ∷ []
  ];
}

abbrev platform : Platform
platform = record {
  codec = codec;
  timestamp_micros = λ now. "7";
  process_id = "1";
  max_duration = 1000;
  max_utc = 1000;
}

abbrev leased_snapshot : StateSnapshot
leased_snapshot = record default_snapshot { attempt_leases = ("m", lease_a) ∷ [] }

abbrev empty_world : World
empty_world = record {
  disk = missing;
  snapshot = default_snapshot;
  next_attempt_id = 0;
  fault = none;
  truncation = truncates;
}

abbrev leased_world : World
leased_world = record {
  disk = file (97 ∷ 98 ∷ 10 ∷ []);
  snapshot = leased_snapshot;
  next_attempt_id = 1;
  fault = none;
  truncation = truncates;
}

begin_m : begin_attempt_at platform "m" 5 10 empty_world ≡ (ok (started lease_a), leased_world)
unfolding begin_attempt_at ensure_message_id is_blank trim trim_start is_whitespace
    refresh_at_unlocked repair_incomplete_tail load_at begin_refreshed contains_processed_message
    OrderedMap.contains_key active_rest active_attempt_lease OrderedMap.get start_attempt
    new_attempt_lease fetch_add_attempt_id lease_expires_at format_attempt_id display_u64
    display_digits append_after_current_snapshot_unlocked append_state_record appended
    missing_newline leased_event new_record apply_record apply_event ensure_attempt_id
    leases_granted prune_expired_attempts OrderedMap.retain OrderedMap.insert is_live
    remaining_lease is_owned_by
begin_m = refl

leased-JsonLine : JsonLine codec leased_record
unfolding decode_line from_utf8 utf8_loop utf8_byte trim trim_start is_whitespace
leased-JsonLine = record {
  no_newline = (λ e. omega (arith, e), (λ e. omega (arith, e), tt));
  reads_back = refl;
  torn_fails = torn;
}
  where
    torn :
        (k : ℕ) → 0 < k → k < 2 → (e : Error) × (decode_line codec (take k (97 ∷ 98 ∷ [])) ≡ err e)
    torn zero pos lt = absurd (omega arith)
    torn (suc zero) pos lt = (bad_json, refl)
    torn (suc (suc k)) pos lt = absurd (omega arith)

processed-JsonLine : JsonLine codec processed_record
unfolding decode_line from_utf8 utf8_loop utf8_byte trim trim_start is_whitespace
processed-JsonLine = record {
  no_newline = (λ e. omega (arith, e), (λ e. omega (arith, e), tt));
  reads_back = refl;
  torn_fails = torn;
}
  where
    torn :
        (k : ℕ) → 0 < k → k < 2 → (e : Error) × (decode_line codec (take k (99 ∷ 100 ∷ [])) ≡ err e)
    torn zero pos lt = absurd (omega arith)
    torn (suc zero) pos lt = (bad_json, refl)
    torn (suc (suc k)) pos lt = absurd (omega arith)

leased_event_m : leased_event lease_a ≡ leased_record
unfolding leased_event new_record
leased_event_m = refl

begin_attempt-exclusive_example :
    (begin_attempt_at platform "m" 5 12 leased_world).0 ≡ ok (leased 3)
unfolding leased_event new_record
begin_attempt-exclusive_example =
    begin_attempt-exclusive platform empty_world leased_world "m" 5 5 10 12 lease_a begin_m
      leased-JsonLine (omega arith)

abbrev processed_world : World
processed_world = record {
  disk = file (97 ∷ 98 ∷ 10 ∷ 99 ∷ 100 ∷ 10 ∷ []);
  snapshot = record default_snapshot { processed_message_ids = ("m", tt) ∷ [] };
  next_attempt_id = 1;
  fault = none;
  truncation = truncates;
}

mark_m : mark_processed_at platform lease_a 11 leased_world ≡ (ok tt, processed_world)
unfolding begin_attempt_at ensure_message_id is_blank trim trim_start is_whitespace
    refresh_at_unlocked repair_incomplete_tail load_at begin_refreshed contains_processed_message
    OrderedMap.contains_key active_rest active_attempt_lease OrderedMap.get start_attempt
    new_attempt_lease fetch_add_attempt_id lease_expires_at format_attempt_id display_u64
    display_digits append_after_current_snapshot_unlocked append_state_record appended
    missing_newline leased_event new_record apply_record apply_event ensure_attempt_id
    leases_granted prune_expired_attempts OrderedMap.retain OrderedMap.insert is_live
    remaining_lease is_owned_by split_lines line_outcome decode_line parse_loop parse_snapshot_bytes
    from_utf8 utf8_loop utf8_byte ensure_attempt_owner owns leases_released OrderedMap.remove
    mark_processed_at mark_refreshed release_attempt_at defer_attempt_at
mark_m = refl

valid_m : ensure_message_id "m" ≡ ok tt
unfolding ensure_message_id is_blank trim trim_start is_whitespace
valid_m = refl

mark_processed-durable_example :
    (begin_attempt_at platform "m" 5 12 processed_world).0 ≡ ok processed
unfolding new_record
mark_processed-durable_example =
    mark_processed-durable platform leased_world processed_world lease_a 5 11 12 mark_m
      processed-JsonLine valid_m

abbrev released_world : World
released_world = record leased_world {
  disk = file (97 ∷ 98 ∷ 10 ∷ 101 ∷ 10 ∷ []);
  snapshot = default_snapshot;
}

release_m : release_attempt_at platform lease_a 11 leased_world ≡ (ok tt, released_world)
unfolding begin_attempt_at ensure_message_id is_blank trim trim_start is_whitespace
    refresh_at_unlocked repair_incomplete_tail load_at begin_refreshed contains_processed_message
    OrderedMap.contains_key active_rest active_attempt_lease OrderedMap.get start_attempt
    new_attempt_lease fetch_add_attempt_id lease_expires_at format_attempt_id display_u64
    display_digits append_after_current_snapshot_unlocked append_state_record appended
    missing_newline leased_event new_record apply_record apply_event ensure_attempt_id
    leases_granted prune_expired_attempts OrderedMap.retain OrderedMap.insert is_live
    remaining_lease is_owned_by split_lines line_outcome decode_line parse_loop parse_snapshot_bytes
    from_utf8 utf8_loop utf8_byte ensure_attempt_owner owns leases_released OrderedMap.remove
    mark_processed_at mark_refreshed release_attempt_at defer_attempt_at
release_m = refl

release-IsOwner_example :
    (s : StateSnapshot) × (load_at codec leased_world.disk 11 ≡ ok s)
    × IsOwner lease_a 11 s
    × (active_attempt_lease released_world.snapshot "m" ≡ none)
release-IsOwner_example = release-IsOwner platform leased_world released_world lease_a 11 release_m

abbrev deferred_world : World
deferred_world = record leased_world {
  disk = file (97 ∷ 98 ∷ 10 ∷ 97 ∷ 98 ∷ 10 ∷ []);
  snapshot = record default_snapshot {
    attempt_leases = ("m", record lease_a { expires_at = 31 }) ∷ [];
  };
}

defer_m : defer_attempt_at platform lease_a 20 11 leased_world ≡ (ok tt, deferred_world)
unfolding begin_attempt_at ensure_message_id is_blank trim trim_start is_whitespace
    refresh_at_unlocked repair_incomplete_tail load_at begin_refreshed contains_processed_message
    OrderedMap.contains_key active_rest active_attempt_lease OrderedMap.get start_attempt
    new_attempt_lease fetch_add_attempt_id lease_expires_at format_attempt_id display_u64
    display_digits append_after_current_snapshot_unlocked append_state_record appended
    missing_newline leased_event new_record apply_record apply_event ensure_attempt_id
    leases_granted prune_expired_attempts OrderedMap.retain OrderedMap.insert is_live
    remaining_lease is_owned_by split_lines line_outcome decode_line parse_loop parse_snapshot_bytes
    from_utf8 utf8_loop utf8_byte ensure_attempt_owner owns leases_released OrderedMap.remove
    mark_processed_at mark_refreshed release_attempt_at defer_attempt_at
defer_m = refl

defer-IsOwner_example :
    (s : StateSnapshot) × (load_at codec leased_world.disk 11 ≡ ok s)
    × IsOwner lease_a 11 s
    × (active_attempt_lease deferred_world.snapshot "m" ≡ some (record lease_a { expires_at = 31 }))
defer-IsOwner_example = defer-IsOwner platform leased_world deferred_world lease_a 20 11 defer_m

apply_leased_m : apply_record default_snapshot leased_record 10 ≡ ok leased_snapshot
unfolding begin_attempt_at ensure_message_id is_blank trim trim_start is_whitespace
    refresh_at_unlocked repair_incomplete_tail load_at begin_refreshed contains_processed_message
    OrderedMap.contains_key active_rest active_attempt_lease OrderedMap.get start_attempt
    new_attempt_lease fetch_add_attempt_id lease_expires_at format_attempt_id display_u64
    display_digits append_after_current_snapshot_unlocked append_state_record appended
    missing_newline leased_event new_record apply_record apply_event ensure_attempt_id
    leases_granted prune_expired_attempts OrderedMap.retain OrderedMap.insert is_live
    remaining_lease is_owned_by
apply_leased_m = refl

append_atomic_example :
    LoadsEither codec 10
      ([] ++ take 1 (appended codec [] leased_record))
      default_snapshot
      leased_snapshot
append_atomic_example =
    append_atomic codec 10 [] leased_record 1 (Intact-nil codec 10) leased-JsonLine apply_leased_m

abbrev failing_world : World
failing_world = record empty_world { fault = some (stops_after 1) }

append_after_fault_example :
    let (result, w') =
      append_after_current_snapshot_unlocked codec leased_record 10 failing_world in
    IsWriteError result
    × (w'.snapshot ≡ default_snapshot)
    × Recovers codec 10 w' default_snapshot leased_snapshot
append_after_fault_example =
    append_after_fault codec 10 leased_record failing_world leased_snapshot (stops_after 1)
      (tt, Intact-nil codec 10) leased-JsonLine apply_leased_m refl refl

load_m : load_at codec leased_world.disk 11 ≡ ok leased_snapshot
unfolding begin_attempt_at ensure_message_id is_blank trim trim_start is_whitespace
    refresh_at_unlocked repair_incomplete_tail load_at begin_refreshed contains_processed_message
    OrderedMap.contains_key active_rest active_attempt_lease OrderedMap.get start_attempt
    new_attempt_lease fetch_add_attempt_id lease_expires_at format_attempt_id display_u64
    display_digits append_after_current_snapshot_unlocked append_state_record appended
    missing_newline leased_event new_record apply_record apply_event ensure_attempt_id
    leases_granted prune_expired_attempts OrderedMap.retain OrderedMap.insert is_live
    remaining_lease is_owned_by split_lines line_outcome decode_line parse_loop parse_snapshot_bytes
    from_utf8 utf8_loop utf8_byte ensure_attempt_owner owns leases_released OrderedMap.remove
    mark_processed_at mark_refreshed release_attempt_at defer_attempt_at
load_m = refl

load_at-IsConsistent_example : IsConsistent 11 leased_snapshot
load_at-IsConsistent_example = load_at-IsConsistent codec 11 leased_world.disk load_m

-- The file ends in the middle of a record.
abbrev torn_disk : Disk
torn_disk = file (97 ∷ 98 ∷ 10 ∷ 99 ∷ [])

repair_m : repair_incomplete_tail codec truncates torn_disk 11 ≡ (ok tt, leased_world.disk)
unfolding begin_attempt_at ensure_message_id is_blank trim trim_start is_whitespace
    refresh_at_unlocked repair_incomplete_tail load_at begin_refreshed contains_processed_message
    OrderedMap.contains_key active_rest active_attempt_lease OrderedMap.get start_attempt
    new_attempt_lease fetch_add_attempt_id lease_expires_at format_attempt_id display_u64
    display_digits append_after_current_snapshot_unlocked append_state_record appended
    missing_newline leased_event new_record apply_record apply_event ensure_attempt_id
    leases_granted prune_expired_attempts OrderedMap.retain OrderedMap.insert is_live
    remaining_lease is_owned_by split_lines line_outcome decode_line parse_loop parse_snapshot_bytes
    from_utf8 utf8_loop utf8_byte ensure_attempt_owner owns leases_released OrderedMap.remove
    mark_processed_at mark_refreshed release_attempt_at defer_attempt_at
repair_m = refl

repair-repair_example :
    (repair_incomplete_tail codec refuses leased_world.disk 11 ≡ (ok tt, leased_world.disk))
    × (load_at codec leased_world.disk 11 ≡ load_at codec torn_disk 11)
repair-repair_example = repair-repair codec 11 truncates refuses torn_disk repair_m

apply_record-SameLog_example :
    (t' : StateSnapshot) × (apply_record default_snapshot leased_record 20 ≡ ok t')
    × SameLog leased_snapshot t'
apply_record-SameLog_example =
    apply_record-SameLog default_snapshot default_snapshot leased_record 10 20
      (SameLog-refl default_snapshot) apply_leased_m

apply_record-IsConsistent_example : IsConsistent 10 leased_snapshot
apply_record-IsConsistent_example =
    apply_record-IsConsistent default_snapshot leased_record 10 (default-IsConsistent 10)
      apply_leased_m
