-- ===== src/State/Store/Reload.antt =====
-- The records of an attempt's life as a later load of the file sees them.
use webex_headless_messenger.Common.{
  ℕ, ◌-◌, ◌<◌, String, ◌≡◌, sym, ap, ◌∙◌, true, false, some, ◌++◌, arith, str_eq_refl, lt→ltb, ok,
  ok-injective, >>=-eq-ok,
}
use webex_headless_messenger.Common.OrderedMap
use webex_headless_messenger.Common.OrderedMap.{get-insert, contains_key-insert}
use webex_headless_messenger.Common.OrderedMap.Entries.{get-retain-some}
use webex_headless_messenger.State.{
  AttemptLease, processed_message, attempt_leased, StateRecord, StateSnapshot, default_snapshot,
  new_record, ensure_message_id, ensure_attempt_id, remaining_lease, is_live,
  prune_expired_attempts, contains_processed_message, active_attempt_lease, leases_granted,
  apply_event, apply_record,
}
use webex_headless_messenger.State.Replay.{file}
use webex_headless_messenger.State.Replay.Times.{
  SameLog, SameLog-refl, apply_record-SameLog, Replays-SameLog,
}
use webex_headless_messenger.State.Store.{
  Platform, World, processed, leased, bytes_of, appended, leased_event, active_rest,
  refresh_at_unlocked, begin_refreshed, begin_attempt_at,
}
use webex_headless_messenger.State.Store.Append.{JsonLine, Intact-appended}
use webex_headless_messenger.State.Store.Synced.{IsSynced, refresh-of_Intact, Appended}

is_live-true : (now : ℕ) (a : AttemptLease) → now < a.expires_at → is_live now a ≡ true
unfolding is_live remaining_lease
is_live-true now a h = ground arith

apply_event_leased :
    (s : StateSnapshot) (a : AttemptLease) (now : ℕ) {u : StateSnapshot}
    → apply_event s (attempt_leased a.message_id a.attempt_id a.expires_at) now ≡ ok u
    → u ≡ record s { attempt_leases = leases_granted s a now }
unfolding apply_event
apply_event_leased s a now p =
    let (_, _, q) = >>=-eq-ok (ensure_message_id a.message_id) _ p in
    let (_, _, l) = >>=-eq-ok (ensure_attempt_id a.attempt_id) _ q in sym (ok-injective l)

granted-get :
    (s : StateSnapshot) (a : AttemptLease) (now : ℕ)
    → contains_processed_message s a.message_id ≡ false
    → now < a.expires_at
    → OrderedMap.get a.message_id (leases_granted s a now) ≡ some a
unfolding leases_granted contains_processed_message
granted-get s a now f lt =
    rw (f, lt→ltb now a.expires_at lt)
      (get-insert a.message_id a.message_id a s.attempt_leases ∙ rw (str_eq_refl a.message_id))

-- A lease record that is applied before its end stands in the snapshot.
pub apply_leased :
    (s : StateSnapshot) (a : AttemptLease) (now : ℕ) {t : StateSnapshot}
    → contains_processed_message s a.message_id ≡ false
    → now < a.expires_at
    → apply_record s (leased_event a) now ≡ ok t
    → active_attempt_lease t a.message_id ≡ some a
unfolding apply_record leased_event new_record active_attempt_lease prune_expired_attempts
apply_leased s a now f lt p =
    let event = attempt_leased a.message_id a.attempt_id a.expires_at in
    let (u, q, l) = >>=-eq-ok (apply_event s event now) _ p in
    let e : OrderedMap.get a.message_id u.attempt_leases ≡ some a =
      ap (λ (x : StateSnapshot). OrderedMap.get a.message_id x.attempt_leases)
        (apply_event_leased s a now q)
      ∙ granted-get s a now f lt in
    ap (λ (x : StateSnapshot). OrderedMap.get a.message_id x.attempt_leases) (sym (ok-injective l))
    ∙ get-retain-some (is_live now) a.message_id a u.attempt_leases e (is_live-true now a lt)

pub apply_leased-processed :
    (s : StateSnapshot) (a : AttemptLease) (now : ℕ) {t : StateSnapshot}
    → apply_record s (leased_event a) now ≡ ok t
    → t.processed_message_ids ≡ s.processed_message_ids
unfolding apply_record leased_event new_record prune_expired_attempts
apply_leased-processed s a now p =
    let event = attempt_leased a.message_id a.attempt_id a.expires_at in
    let (u, q, l) = >>=-eq-ok (apply_event s event now) _ p in
    ap (λ (x : StateSnapshot). x.processed_message_ids) (sym (ok-injective l))
    ∙ ap (λ (x : StateSnapshot). x.processed_message_ids) (apply_event_leased s a now q)

apply_event_processed :
    (s : StateSnapshot) (m : String) (at now : ℕ) {u : StateSnapshot}
    → apply_event s (processed_message m at) now ≡ ok u
    → contains_processed_message u m ≡ true
unfolding apply_event contains_processed_message
apply_event_processed s m at now p =
    let (_, _, q) = >>=-eq-ok (ensure_message_id m) _ p in
    ap (λ (x : StateSnapshot). OrderedMap.contains_key m x.processed_message_ids)
      (sym (ok-injective q))
    ∙ contains_key-insert m m tt s.processed_message_ids
    ∙ rw (str_eq_refl m)

pub apply_processed :
    (s : StateSnapshot) (m : String) (at now : ℕ) {t : StateSnapshot}
    → apply_record s (new_record (processed_message m at)) now ≡ ok t
    → contains_processed_message t m ≡ true
unfolding apply_record new_record prune_expired_attempts contains_processed_message
apply_processed s m at now p =
    let (u, q, l) = >>=-eq-ok (apply_event s (processed_message m at) now) _ p in
    ap (λ (x : StateSnapshot). OrderedMap.contains_key m x.processed_message_ids)
      (sym (ok-injective l))
    ∙ apply_event_processed s m at now q

pub contains_of_eq :
    (s t : StateSnapshot) (m : String)
    → s.processed_message_ids ≡ t.processed_message_ids
    → contains_processed_message s m ≡ contains_processed_message t m
unfolding contains_processed_message
contains_of_eq s t m e = ap (OrderedMap.contains_key m) e

pub contains-SameLog :
    {s t : StateSnapshot}
    → SameLog s t
    → (m : String) → contains_processed_message s m ≡ contains_processed_message t m
contains-SameLog {s} {t} h m = contains_of_eq s t m h.processed

module _ (p : Platform) where
  -- What a store sees after an append, at any other time.
  pub record Reloaded (r : StateRecord) (w w' : World) (later : ℕ) : Type 0 where
    pub before : StateSnapshot
    pub after : StateSnapshot
    pub same : SameLog w.snapshot before
    pub applied : apply_record before r later ≡ ok after
    pub refreshed : refresh_at_unlocked p.codec later w' ≡ (
      ok tt,
      record w' {
        disk = file (bytes_of w.disk ++ appended p.codec (bytes_of w.disk) r);
        snapshot = after;
      },
    )

  pub reload_after :
      (r : StateRecord) (w w' : World) (now later : ℕ)
      → JsonLine p.codec r
      → IsSynced p.codec now w
      → Appended p.codec now r w w'
      → Reloaded r w w' later
  reload_after r w w' now later j i a =
      let (s, q, h) =
        Replays-SameLog p.codec now later default_snapshot (SameLog-refl default_snapshot) i.1 in
      let (t, e, _) = apply_record-SameLog w.snapshot s r now later h a.accepted in
      record {
        before = s;
        after = t;
        same = h;
        applied = e;
        refreshed =
            refresh-of_Intact p.codec later w'
              (bytes_of w.disk ++ appended p.codec (bytes_of w.disk) r) a.disk
              (Intact-appended p.codec later (bytes_of w.disk) r q j e);
      }

  pub begin_processed :
      (w w' : World) (m : String) (lease now : ℕ)
      → ensure_message_id m ≡ ok tt
      → refresh_at_unlocked p.codec now w ≡ (ok tt, w')
      → contains_processed_message w'.snapshot m ≡ true
      → begin_attempt_at p m lease now w ≡ (ok processed, w')
  unfolding begin_attempt_at begin_refreshed
  begin_processed w w' m lease now e f g = rw (e, f) (rw g)

  pub begin_leased :
      (w w' : World) (m : String) (lease now : ℕ) (a : AttemptLease)
      → ensure_message_id m ≡ ok tt
      → refresh_at_unlocked p.codec now w ≡ (ok tt, w')
      → contains_processed_message w'.snapshot m ≡ false
      → active_attempt_lease w'.snapshot m ≡ some a
      → now < a.expires_at
      → begin_attempt_at p m lease now w ≡ (ok (leased (a.expires_at - now)), w')
  unfolding begin_attempt_at begin_refreshed active_rest remaining_lease
  begin_leased w w' m lease now a e f g h lt = rw (e, f) (rw (g, h, lt→ltb now a.expires_at lt))
