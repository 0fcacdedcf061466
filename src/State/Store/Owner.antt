-- ===== src/State/Store/Owner.antt =====
-- Only the owner of an active lease releases it or defers it.
use webex_headless_messenger.Common.{
  ℕ, ◌+◌, ◌<◌, String, ◌≡◌, refl, sym, ap, ◌∙◌, inl, inr, true, false, Bool-cases, Option, none,
  some, arith, str_eq_refl, eq_iff, ◌==◌, if◌then◌else◌, ok, ok-injective, err-ne-ok, >>=-eq-ok,
  Result-cases,
}
use webex_headless_messenger.Common.Exec.{continue-eq-ok}
use webex_headless_messenger.Common.OrderedMap
use webex_headless_messenger.Common.OrderedMap.{get-remove}
use webex_headless_messenger.Common.OrderedMap.Entries.{get-retain-none}
use webex_headless_messenger.State.{
  AttemptLease, attempt_released, StateSnapshot, new_record, ensure_message_id, ensure_attempt_id,
  remaining_lease, is_live, is_owned_by, leases_released, prune_expired_attempts,
  active_attempt_lease, contains_processed_message, apply_event, apply_record,
}
use webex_headless_messenger.State.Snapshot.{IsConsistent}
use webex_headless_messenger.State.Replay.{load_at}
use webex_headless_messenger.State.Replay.Times.{load_at-IsConsistent}
use webex_headless_messenger.State.Store.{
  Platform, World, owns, one_second, ensure_attempt_owner, lease_expires_at, release_attempt_at,
  defer_attempt_at, leased_event,
}
use webex_headless_messenger.State.Store.Synced.{append_after-Appended}
use webex_headless_messenger.State.Store.Reload.{apply_leased}
use webex_headless_messenger.State.Store.Durable.{refresh_then}

-- The lease `active` of the message of `a` is the one that `a` owns, and it runs at `now`.
pub record IsOwner (a : AttemptLease) (now : ℕ) (s : StateSnapshot) : Type 0 where
  pub active : AttemptLease
  pub holds : active_attempt_lease s a.message_id ≡ some active
  pub attempt : active.attempt_id ≡ a.attempt_id
  pub runs : now < active.expires_at

owns-IsOwner :
    (a : AttemptLease) (now : ℕ) (s : StateSnapshot) (o : Option AttemptLease)
    → active_attempt_lease s a.message_id ≡ o
    → owns a now o ≡ true
    → IsOwner a now s
unfolding owns remaining_lease
owns-IsOwner a now s none e h = cc
owns-IsOwner a now s (some b) e h = record {
  active = b;
  holds = e;
  attempt = (eq_iff b.attempt_id a.attempt_id).0 (ground arith);
  runs = ground arith;
}

ensure-IsOwner :
    (a : AttemptLease) (now : ℕ) (s : StateSnapshot)
    → ensure_attempt_owner a now s ≡ ok tt
    → IsOwner a now s
unfolding ensure_attempt_owner
ensure-IsOwner a now s h = elim (Result-cases (ensure_message_id a.message_id)) [
  | inr (x, f) ↦ absurd (err-ne-ok (rw (f, ensure_attempt_owner) at h))
  | inl (x, f) ↦ elim (Bool-cases (owns a now (active_attempt_lease s a.message_id))) [
    | inl e ↦ owns-IsOwner a now s (active_attempt_lease s a.message_id) refl e
    | inr e ↦ absurd (err-ne-ok (rw (f, e, ensure_attempt_owner) at h))
  ]
]

IsOwner-is_owned_by :
    (a : AttemptLease) (now : ℕ) (s : StateSnapshot)
    → IsOwner a now s
    → is_owned_by a.attempt_id (active_attempt_lease s a.message_id) ≡ true
unfolding is_owned_by
IsOwner-is_owned_by a now s o = rw o.holds ((eq_iff o.active.attempt_id a.attempt_id).1 o.attempt)

leases_released-none :
    (s : StateSnapshot) (m x : String)
    → is_owned_by x (active_attempt_lease s m) ≡ true
    → OrderedMap.get m (leases_released s m x) ≡ none
unfolding leases_released active_attempt_lease
leases_released-none s m x h = rw h (get-remove m m s.attempt_leases ∙ rw (str_eq_refl m))

apply_event_released :
    (s : StateSnapshot) (m x : String) (at now : ℕ) {u : StateSnapshot}
    → apply_event s (attempt_released m x at) now ≡ ok u
    → record s { attempt_leases = leases_released s m x } ≡ u
unfolding apply_event
apply_event_released s m x at now p =
    let (_, _, q) = >>=-eq-ok (ensure_message_id m) _ p in
    let (_, _, l) = >>=-eq-ok (ensure_attempt_id x) _ q in ok-injective l

released-none :
    (s : StateSnapshot) (m x : String) (now : ℕ) {t : StateSnapshot}
    → is_owned_by x (active_attempt_lease s m) ≡ true
    → apply_record s (new_record (attempt_released m x now)) now ≡ ok t
    → active_attempt_lease t m ≡ none
unfolding apply_record new_record prune_expired_attempts active_attempt_lease
released-none s m x now h p =
    let (u, q, l) = >>=-eq-ok (apply_event s (attempt_released m x now) now) _ p in
    let e : OrderedMap.get m u.attempt_leases ≡ none =
      ap (λ (z : StateSnapshot). OrderedMap.get m z.attempt_leases)
        (sym (apply_event_released s m x now now q))
      ∙ leases_released-none s m x h in
    ap (λ (z : StateSnapshot). OrderedMap.get m z.attempt_leases) (sym (ok-injective l))
    ∙ get-retain-none (is_live now) m u.attempt_leases e

lease_expires_at_lem :
    (p : Platform) (now lease x : ℕ)
    → lease_expires_at p now lease ≡ ok x
    → (x ≡ now + (if lease == 0 then one_second else lease)) × (now < x)
unfolding lease_expires_at
lease_expires_at_lem p now lease x h = ground arith

not_processed :
    (now : ℕ) (s : StateSnapshot) (m : String) (a : AttemptLease)
    → IsConsistent now s
    → active_attempt_lease s m ≡ some a
    → contains_processed_message s m ≡ false
unfolding active_attempt_lease contains_processed_message
not_processed now s m a c h =
    elim (Bool-cases (OrderedMap.contains_key m s.processed_message_ids)) [
      | inl e ↦ cc (c.unleased m e)
      | inr e ↦ e
    ]

module _ (p : Platform) where
  -- `release_attempt_at` succeeds only for the owner of a lease that runs at `now` in the file as it is
  -- loaded, and the message has no lease after it.
  pub release-IsOwner :
      (w w' : World) (a : AttemptLease) (now : ℕ)
      → release_attempt_at p a now w ≡ (ok tt, w')
      → (s : StateSnapshot) × (load_at p.codec w.disk now ≡ ok s)
        × IsOwner a now s
        × (active_attempt_lease w'.snapshot a.message_id ≡ none)
  unfolding release_attempt_at
  release-IsOwner w w' a now h =
      let (u, r, h') = refresh_then p w now _ h in
      let (_, e, h'') = continue-eq-ok (ensure_attempt_owner a now u.snapshot) _ h' in
      let o = ensure-IsOwner a now u.snapshot e in
      let s =
        append_after-Appended p.codec now
          (new_record (attempt_released a.message_id a.attempt_id now)) u h'' in
      (
        u.snapshot,
        r.loaded,
        o,
        released-none u.snapshot a.message_id a.attempt_id now
            (IsOwner-is_owned_by a now u.snapshot o) s.accepted,
      )

  -- `defer_attempt_at` succeeds only for the owner of a lease that runs at `now` in the file as it is
  -- loaded, and after it the attempt's lease ends at `now` plus the new duration, a zero duration counting
  -- as one second.
  pub defer-IsOwner :
      (w w' : World) (a : AttemptLease) (lease now : ℕ)
      → defer_attempt_at p a lease now w ≡ (ok tt, w')
      → (s : StateSnapshot) × (load_at p.codec w.disk now ≡ ok s)
        × IsOwner a now s
        × (active_attempt_lease w'.snapshot a.message_id
            ≡ some (record a { expires_at = now + (if lease == 0 then one_second else lease) }))
  unfolding defer_attempt_at leased_event
  defer-IsOwner w w' a lease now h =
      let (u, r, h') = refresh_then p w now _ h in
      let (_, e, h'') = continue-eq-ok (ensure_attempt_owner a now u.snapshot) _ h' in
      let (x, f, h''') = continue-eq-ok (lease_expires_at p now lease) _ h'' in
      let o = ensure-IsOwner a now u.snapshot e in
      let s =
        append_after-Appended p.codec now (leased_event (record a { expires_at = x })) u h''' in
      let (q, lt) = lease_expires_at_lem p now lease x f in
      (
        u.snapshot,
        r.loaded,
        o,
        apply_leased u.snapshot (record a { expires_at = x }) now
              (not_processed now u.snapshot a.message_id o.active
                (load_at-IsConsistent p.codec now w.disk r.loaded) o.holds)
              lt s.accepted
            ∙ ap (λ n. some (record a { expires_at = n })) q,
      )
