-- ===== src/State/Replay/Times.antt =====
-- What every replay satisfies, and replays of one file at two times.
use mathlib.Core.Path.{subst}
use webex_headless_messenger.Common.{
  ℕ, ◌≡◌, refl, ap, inl, inr, Bool, true, false, not, Bool-cases, Option, none, some, List, ◌==◌,
  Result, ok, err, ok-injective, err-ne-ok, >>=-eq-ok,
}
use webex_headless_messenger.Common.Text.{is_blank}
use webex_headless_messenger.Common.OrderedMap
use webex_headless_messenger.State.{
  StateEvent, processed_message, attempt_leased, attempt_released, room_checkpoint, StateRecord,
  StateSnapshot, default_snapshot, state_record_version, ensure_message_id, ensure_attempt_id,
  prune_expired_attempts, leases_granted, leases_released, apply_event, apply_record,
}
use webex_headless_messenger.State.Snapshot.{
  IsConsistent, default-IsConsistent, apply_record-IsConsistent,
}
use webex_headless_messenger.State.Replay.{
  Codec, Line, advance, applied, decoded, decode_line, line_outcome, parse_snapshot_bytes, Disk,
  missing, file, unreadable, load_at,
}
use webex_headless_messenger.State.Replay.Runs.{
  Replays, done, next, Parsed, whole, dropped, applied-advance, advance-injective,
}
use webex_headless_messenger.State.Replay.Intact.{parse_snapshot_bytes-Parsed}

decoded-IsConsistent :
    (drop : Bool) (s : StateSnapshot) (now : ℕ) (m : Result (Option StateRecord))
    {t : StateSnapshot}
    → IsConsistent now s
    → decoded drop s now m ≡ advance t
    → IsConsistent now t
decoded-IsConsistent true s now (err e) p h = cc
decoded-IsConsistent false s now (err e) p h = cc
decoded-IsConsistent drop s now (ok none) p h = subst (IsConsistent now) (advance-injective h) p
decoded-IsConsistent drop s now (ok (some r)) p h =
    apply_record-IsConsistent s r now p (applied-advance (apply_record s r now) h)

module _ (c : Codec) (now : ℕ) where
  line_outcome-IsConsistent :
      (s : StateSnapshot) (line : Line) {t : StateSnapshot}
      → IsConsistent now s
      → line_outcome c now true s line ≡ advance t
      → IsConsistent now t
  unfolding line_outcome
  line_outcome-IsConsistent s (l, has_newline) p h =
      decoded-IsConsistent (not has_newline) s now (decode_line c l) p h

  Replays-IsConsistent :
      {s t : StateSnapshot} {ls : List Line}
      → IsConsistent now s
      → Replays c now s ls t
      → IsConsistent now t
  Replays-IsConsistent p done = p
  Replays-IsConsistent p (next {s = s} {line = line} e r) =
      Replays-IsConsistent (line_outcome-IsConsistent s line p e) r

  Parsed-IsConsistent :
      {total m : ℕ} {s : StateSnapshot} {ls : List Line}
      → Parsed c now total default_snapshot 0 ls s m
      → IsConsistent now s
  Parsed-IsConsistent (whole r e) = Replays-IsConsistent (default-IsConsistent now) r
  Parsed-IsConsistent (dropped read tail p r o e) =
      Replays-IsConsistent (default-IsConsistent now) r

  -- Whatever bytes the state file holds, a snapshot that is loaded from it at `now` has no lease for a
  -- processed message, has each lease under its own message, and has only leases that end after `now`.
  pub load_at-IsConsistent :
      (disk : Disk) {s : StateSnapshot} → load_at c disk now ≡ ok s → IsConsistent now s
  unfolding load_at
  load_at-IsConsistent missing h =
      subst (IsConsistent now) (ok-injective h) (default-IsConsistent now)
  load_at-IsConsistent (unreadable e) h = absurd (err-ne-ok h)
  load_at-IsConsistent (file bytes) h =
      let (parsed, e, q) = >>=-eq-ok (parse_snapshot_bytes c bytes now true) _ h in
      subst (IsConsistent now) (ok-injective q)
        (Parsed-IsConsistent (parse_snapshot_bytes-Parsed c now bytes e))

-- Two snapshots that differ in leases only.
pub record SameLog (s t : StateSnapshot) : Type 0 where
  pub processed : s.processed_message_ids ≡ t.processed_message_ids
  pub checkpoints : s.room_checkpoints ≡ t.room_checkpoints

SameLog-from : {s s' t : StateSnapshot} → ok s ≡ ok s' → SameLog s t → SameLog s' t
SameLog-from {t = t} p h = subst (λ x. SameLog x t) (ok-injective p) h

-- `now` decides about leases only: never whether an event is accepted.
apply_event-SameLog :
    (s t : StateSnapshot) (e : StateEvent) (now later : ℕ) {s' : StateSnapshot}
    → SameLog s t
    → apply_event s e now ≡ ok s'
    → (t' : StateSnapshot) × (apply_event t e later ≡ ok t') × SameLog s' t'
unfolding apply_event
apply_event-SameLog s t (processed_message m at) now later h p =
    let (_, g, q) = >>=-eq-ok (ensure_message_id m) _ p in
    (
      record t {
        processed_message_ids = OrderedMap.insert m tt t.processed_message_ids;
        attempt_leases = OrderedMap.remove m t.attempt_leases;
      },
      rw g,
      SameLog-from q (record {
        processed = ap (OrderedMap.insert m tt) h.processed;
        checkpoints = h.checkpoints;
      }),
    )
apply_event-SameLog s t (attempt_leased m a x) now later h p =
    let (_, f, q) = >>=-eq-ok (ensure_message_id m) _ p in
    let (_, g, l) = >>=-eq-ok (ensure_attempt_id a) _ q in
    (
      record t {
        attempt_leases =
            leases_granted t (record { message_id = m; attempt_id = a; expires_at = x }) later;
      },
      rw (f, g),
      SameLog-from l (record { processed = h.processed; checkpoints = h.checkpoints }),
    )
apply_event-SameLog s t (attempt_released m a x) now later h p =
    let (_, f, q) = >>=-eq-ok (ensure_message_id m) _ p in
    let (_, g, l) = >>=-eq-ok (ensure_attempt_id a) _ q in
    (
      record t { attempt_leases = leases_released t m a },
      rw (f, g),
      SameLog-from l (record { processed = h.processed; checkpoints = h.checkpoints }),
    )
apply_event-SameLog s t (room_checkpoint k x) now later h p =
    elim (Bool-cases (is_blank k.room_id)) [
      | inl e ↦ absurd (err-ne-ok (rw e at p))
      | inr e ↦ (
        record t { room_checkpoints = OrderedMap.insert k.room_id k t.room_checkpoints },
        rw e,
        SameLog-from (rw e at p) (record {
          processed = h.processed;
          checkpoints = ap (OrderedMap.insert k.room_id k) h.checkpoints;
        }),
      )
    ]

prune-SameLog :
    {s t : StateSnapshot} (now later : ℕ)
    → SameLog s t
    → SameLog (prune_expired_attempts now s) (prune_expired_attempts later t)
unfolding prune_expired_attempts
prune-SameLog now later h = record { processed = h.processed; checkpoints = h.checkpoints }

-- A record that is accepted at one time is accepted at every other, and the snapshots after it agree in
-- the processed messages and in the room checkpoints.
pub apply_record-SameLog :
    (s t : StateSnapshot) (r : StateRecord) (now later : ℕ) {s' : StateSnapshot}
    → SameLog s t
    → apply_record s r now ≡ ok s'
    → (t' : StateSnapshot) × (apply_record t r later ≡ ok t') × SameLog s' t'
unfolding apply_record
apply_record-SameLog s t r now later h p = elim (Bool-cases (r.version == state_record_version)) [
  | inl e ↦
      let (u, q, l) = >>=-eq-ok (apply_event s r.event now) _ (rw e at p) in
      let (v, f, g) = apply_event-SameLog s t r.event now later h q in
      (prune_expired_attempts later v, rw (e, f), SameLog-from l (prune-SameLog now later g))
  | inr e ↦ absurd (err-ne-ok (rw e at p))
]

decoded-SameLog :
    (drop : Bool) (s t : StateSnapshot) (now later : ℕ) (m : Result (Option StateRecord))
    {s' : StateSnapshot}
    → SameLog s t
    → decoded drop s now m ≡ advance s'
    → (t' : StateSnapshot) × (decoded drop t later m ≡ advance t') × SameLog s' t'
decoded-SameLog true s t now later (err e) h p = cc
decoded-SameLog false s t now later (err e) h p = cc
decoded-SameLog drop s t now later (ok none) h p =
    (t, refl, subst (λ x. SameLog x t) (advance-injective p) h)
decoded-SameLog drop s t now later (ok (some r)) h p =
    let (t', q, g) =
      apply_record-SameLog s t r now later h (applied-advance (apply_record s r now) p) in
    (t', ap applied q, g)

module _ (c : Codec) (now later : ℕ) where
  line_outcome-SameLog :
      (s t : StateSnapshot) (line : Line) {s' : StateSnapshot}
      → SameLog s t
      → line_outcome c now true s line ≡ advance s'
      → (t' : StateSnapshot) × (line_outcome c later true t line ≡ advance t') × SameLog s' t'
  unfolding line_outcome
  line_outcome-SameLog s t (l, has_newline) h p =
      decoded-SameLog (not has_newline) s t now later (decode_line c l) h p

  -- A file that replays at one time replays at every other.
  pub Replays-SameLog :
      {s s' : StateSnapshot} (t : StateSnapshot) {ls : List Line}
      → SameLog s t
      → Replays c now s ls s'
      → (t' : StateSnapshot) × Replays c later t ls t' × SameLog s' t'
  Replays-SameLog t h done = (t, done, h)
  Replays-SameLog t h (next {s = s} {line = line} e r) =
      let (u, f, g) = line_outcome-SameLog s t line h e in
      let (t', q, l) = Replays-SameLog u g r in (t', next f q, l)

pub SameLog-refl : (s : StateSnapshot) → SameLog s s
SameLog-refl s = record { processed = refl; checkpoints = refl }
