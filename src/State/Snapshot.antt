-- ===== src/State/Snapshot.antt =====
-- The invariant of a snapshot, and what a replay at another time has in common with the first.
use mathlib.Core.Path.{subst}
use webex_headless_messenger.Common.{
  ℕ, ◌<◌, String, ◌≡◌, refl, inl, inr, true, Bool-cases, none, some, arith, eq_iff, ltb, ◌==◌, ok,
  ok-injective, err-ne-ok, >>=-eq-ok,
}
use webex_headless_messenger.Common.OrderedMap
use webex_headless_messenger.Common.OrderedMap.{
  OrderedMap, get, contains_key, insert, get-insert, get-remove, contains_key-insert,
}
use webex_headless_messenger.Common.OrderedMap.Entries.{
  get-retain-none, retain-true, AllEntries, AllEntries-insert, AllEntries-remove, AllEntries-retain,
}
use webex_headless_messenger.Common.Text.{is_blank}
use webex_headless_messenger.State.{
  AttemptLease, StateEvent, processed_message, attempt_leased, attempt_released, room_checkpoint,
  StateRecord, StateSnapshot, default_snapshot, state_record_version, ensure_message_id,
  ensure_attempt_id, remaining_lease, is_live, prune_expired_attempts, is_owned_by, leases_granted,
  leases_released, apply_event, apply_record,
}

abbrev pub IsKeyed : OrderedMap AttemptLease → Type 0
IsKeyed = AllEntries (λ k (a : AttemptLease). a.message_id ≡ k)

-- A processed message has no lease, a lease stands under its own message, and no lease has run out.
pub record IsConsistent (now : ℕ) (s : StateSnapshot) : Type 0 where
  pub unleased :
      (m : String) → contains_key m s.processed_message_ids ≡ true → get m s.attempt_leases ≡ none
  pub keyed : IsKeyed s.attempt_leases
  pub live : (m : String) (a : AttemptLease) → get m s.attempt_leases ≡ some a → now < a.expires_at

-- The part that holds before the leases that have run out are dropped.
record IsSettled (s : StateSnapshot) : Type 0 where
  unleased :
      (m : String) → contains_key m s.processed_message_ids ≡ true → get m s.attempt_leases ≡ none
  keyed : IsKeyed s.attempt_leases

pub default-IsConsistent : (now : ℕ) → IsConsistent now default_snapshot
unfolding get
default-IsConsistent now = record { unleased = λ m h. refl; keyed = tt; live = λ m a h. cc }

is_live-lt : (now : ℕ) (a : AttemptLease) → is_live now a ≡ true → now < a.expires_at
unfolding is_live remaining_lease
is_live-lt now a h = ground arith

prune-IsConsistent :
    (now : ℕ) (s : StateSnapshot) → IsSettled s → IsConsistent now (prune_expired_attempts now s)
unfolding prune_expired_attempts
prune-IsConsistent now s h = record {
  unleased = λ m p. get-retain-none (is_live now) m s.attempt_leases (h.unleased m p);
  keyed = AllEntries-retain _ (is_live now) s.attempt_leases h.keyed;
  live = λ m a p. is_live-lt now a (retain-true (is_live now) m a s.attempt_leases p);
}

leases_granted-IsSettled :
    (s : StateSnapshot) (a : AttemptLease) (now : ℕ)
    → IsSettled s
    → IsSettled (record s { attempt_leases = leases_granted s a now })
unfolding leases_granted
leases_granted-IsSettled s a now h = record {
  unleased = λ m p. ground (
    arith,
    h.unleased m,
    get-insert a.message_id m a s.attempt_leases,
    get-remove a.message_id m s.attempt_leases,
    eq_iff a.message_id m,
  );
  keyed = elim (Bool-cases (contains_key a.message_id s.processed_message_ids)) [
    | inl e ↦ rw e (AllEntries-remove _ a.message_id s.attempt_leases h.keyed)
    | inr e ↦ elim (Bool-cases (ltb now a.expires_at)) [
      | inl f ↦ rw (e, f) (AllEntries-insert _ a.message_id a s.attempt_leases h.keyed refl)
      | inr f ↦ rw (e, f) (AllEntries-remove _ a.message_id s.attempt_leases h.keyed)
    ]
  ];
}

leases_released-IsSettled :
    (s : StateSnapshot) (m x : String)
    → IsSettled s
    → IsSettled (record s { attempt_leases = leases_released s m x })
unfolding leases_released
leases_released-IsSettled s m x h = record {
  unleased = λ k p. ground (arith, h.unleased k, get-remove m k s.attempt_leases);
  keyed = elim (Bool-cases (is_owned_by x (get m s.attempt_leases))) [
    | inl e ↦ rw e (AllEntries-remove _ m s.attempt_leases h.keyed)
    | inr e ↦ rw e h.keyed
  ];
}

processed-IsSettled :
    (s : StateSnapshot) (m : String)
    → IsSettled s
    → IsSettled (record s {
      processed_message_ids = insert m tt s.processed_message_ids;
      attempt_leases = OrderedMap.remove m s.attempt_leases;
    })
processed-IsSettled s m h = record {
  unleased = λ k p. ground (
    arith,
    h.unleased k,
    get-remove m k s.attempt_leases,
    contains_key-insert m k tt s.processed_message_ids,
  );
  keyed = AllEntries-remove _ m s.attempt_leases h.keyed;
}

apply_event-IsSettled :
    (s : StateSnapshot) (e : StateEvent) (now : ℕ) {t : StateSnapshot}
    → IsSettled s
    → apply_event s e now ≡ ok t
    → IsSettled t
unfolding apply_event
apply_event-IsSettled s (processed_message m at) now h p =
    let (_, _, q) = >>=-eq-ok (ensure_message_id m) _ p in
    subst IsSettled (ok-injective q) (processed-IsSettled s m h)
apply_event-IsSettled s (attempt_leased m a x) now h p =
    let (_, _, q) = >>=-eq-ok (ensure_message_id m) _ p in
    let (_, _, r) = >>=-eq-ok (ensure_attempt_id a) _ q in
    subst IsSettled (ok-injective r) (leases_granted-IsSettled s _ now h)
apply_event-IsSettled s (attempt_released m a x) now h p =
    let (_, _, q) = >>=-eq-ok (ensure_message_id m) _ p in
    let (_, _, r) = >>=-eq-ok (ensure_attempt_id a) _ q in
    subst IsSettled (ok-injective r) (leases_released-IsSettled s m a h)
apply_event-IsSettled s (room_checkpoint k x) now h p = elim (Bool-cases (is_blank k.room_id)) [
  | inl e ↦ absurd (err-ne-ok (rw e at p))
  | inr e ↦
      subst IsSettled (ok-injective (rw e at p)) (record { unleased = h.unleased; keyed = h.keyed })
]

IsSettled-of_consistent : {now : ℕ} {s : StateSnapshot} → IsConsistent now s → IsSettled s
IsSettled-of_consistent h = record { unleased = h.unleased; keyed = h.keyed }

-- Every record that is applied keeps the invariant, at the time of the call.
pub apply_record-IsConsistent :
    (s : StateSnapshot) (r : StateRecord) (now : ℕ) {t : StateSnapshot}
    → IsConsistent now s
    → apply_record s r now ≡ ok t
    → IsConsistent now t
unfolding apply_record
apply_record-IsConsistent s r now h p = elim (Bool-cases (r.version == state_record_version)) [
  | inl e ↦
      let (u, q, l) = >>=-eq-ok (apply_event s r.event now) _ (rw e at p) in
      subst (IsConsistent now) (ok-injective l) (
        prune-IsConsistent now u
          (apply_event-IsSettled s r.event now (IsSettled-of_consistent h) q))
  | inr e ↦ absurd (err-ne-ok (rw e at p))
]
