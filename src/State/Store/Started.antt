-- ===== src/State/Store/Started.antt =====
-- What `begin_attempt_at` has done when it returns `Started`.
use mathlib.Core.Path.{subst}
use webex_headless_messenger.Common.{
  ℕ, String, ◌≡◌, refl, ap, inl, inr, false, Bool-cases, Option-cases, Error, ok, err, ok-injective,
  err-ne-ok, Result-cases, ◌+◌, ◌%◌,
}
use webex_headless_messenger.Common.Exec.{continue-eq-ok}
use webex_headless_messenger.State.{AttemptLease, ensure_message_id, contains_processed_message}
use webex_headless_messenger.State.Store.{
  Platform, World, started, processed, leased, leased_event, active_rest, refresh_at_unlocked,
  append_after_current_snapshot_unlocked, new_attempt_lease, start_attempt, begin_refreshed,
  begin_attempt_at, lease_expires_at, format_attempt_id, u64_mod,
}
use webex_headless_messenger.State.Store.Synced.{
  IsSynced, Refreshed, refresh-Refreshed, Appended, append_after-Appended,
}

started-injective : {a b : AttemptLease} → started a ≡ started b → a ≡ b
started-injective h = cc

processed-ne-started : {a : AttemptLease} → ¬ (processed ≡ started a)
processed-ne-started h = cc

leased-ne-started : {n : ℕ} {a : AttemptLease} → ¬ (leased n ≡ started a)
leased-ne-started h = cc

module _ (p : Platform) where
  -- The start of an attempt: what `begin_attempt_at` has done when it returns `Started`.
  pub record StartedAt (m : String) (now : ℕ) (a : AttemptLease) (w : World) : Type 0 where
    pub base : World
    pub valid : ensure_message_id m ≡ ok tt
    pub message : a.message_id ≡ m
    pub fresh : contains_processed_message base.snapshot m ≡ false
    pub synced : IsSynced p.codec now base
    pub written : Appended p.codec now (leased_event a) base w

  -- The lease that `new_attempt_lease` gives where its expiry is `expires_at`, and the world after it.
  abbrev next_lease : String → ℕ → ℕ → World → AttemptLease
  next_lease m now expires_at w = record {
    message_id = m;
    attempt_id = format_attempt_id p now w.next_attempt_id;
    expires_at = expires_at;
  }

  abbrev next_world : World → World
  next_world w = record w { next_attempt_id = (w.next_attempt_id + 1) % u64_mod }

  new_attempt_ok :
      (w : World) (m : String) (now lease x : ℕ)
      → ensure_message_id m ≡ ok tt
      → lease_expires_at p now lease ≡ ok x
      → new_attempt_lease p m now lease w ≡ (ok (next_lease m now x w), next_world w)
  unfolding new_attempt_lease
  new_attempt_ok w m now lease x e f = rw e (rw f)

  new_attempt_err :
      (w : World) (m : String) (now lease : ℕ) (x : Error)
      → ensure_message_id m ≡ ok tt
      → lease_expires_at p now lease ≡ err x
      → new_attempt_lease p m now lease w ≡ (err x, next_world w)
  unfolding new_attempt_lease
  new_attempt_err w m now lease x e f = rw e (rw f)

  start-StartedAt :
      (w : World) {w' : World} (m : String) (lease now : ℕ) {a : AttemptLease}
      → ensure_message_id m ≡ ok tt
      → contains_processed_message w.snapshot m ≡ false
      → IsSynced p.codec now w
      → start_attempt p m lease now w ≡ (ok (started a), w')
      → StartedAt m now a w'
  unfolding start_attempt
  start-StartedAt w {w'} m lease now {a} v f i h =
      elim (Result-cases (lease_expires_at p now lease)) [
        | inr (x, e) ↦
            absurd (err-ne-ok (ap (λ x. x.0) (rw (new_attempt_err w m now lease x v e) at h)))
        | inl (x, e) ↦
            let b = next_lease m now x w in
            let (_, g, h') =
              continue-eq-ok
                (append_after_current_snapshot_unlocked p.codec (leased_event b) now
                  (next_world w)).0
                _ (rw (new_attempt_ok w m now lease x v e) at h) in
            let done : append_after_current_snapshot_unlocked p.codec (leased_event b) now
                  (next_world w)
                ≡ (ok tt, w') =
              λ k. (g k, (h' k).1) in
            subst (λ z. StartedAt m now z w') (started-injective (ok-injective (ap (λ z. z.0) h')))
              (record {
                base = next_world w;
                valid = v;
                message = refl;
                fresh = f;
                synced = i;
                written = append_after-Appended p.codec now (leased_event b) (next_world w) done;
              })
      ]

  refreshed-StartedAt :
      (w : World) {w' : World} (m : String) (lease now : ℕ) {a : AttemptLease}
      → ensure_message_id m ≡ ok tt
      → IsSynced p.codec now w
      → begin_refreshed p m lease now w ≡ (ok (started a), w')
      → StartedAt m now a w'
  unfolding begin_refreshed
  refreshed-StartedAt w m lease now v i h =
      elim (Bool-cases (contains_processed_message w.snapshot m)) [
        | inl e ↦ absurd (processed-ne-started (ok-injective (ap (λ z. z.0) (rw e at h))))
        | inr e ↦ elim (Option-cases (active_rest w.snapshot m now)) [
          | inl f ↦ start-StartedAt w m lease now v e i (rw (e, f) at h)
          | inr (x, f) ↦ absurd (leased-ne-started (ok-injective (ap (λ z. z.0) (rw (e, f) at h))))
        ]
      ]

  pub begin-StartedAt :
      (w : World) {w' : World} (m : String) (lease now : ℕ) {a : AttemptLease}
      → begin_attempt_at p m lease now w ≡ (ok (started a), w')
      → StartedAt m now a w'
  unfolding begin_attempt_at
  begin-StartedAt w m lease now h =
      let (_, v, h1) = continue-eq-ok (ensure_message_id m) _ h in
      let (_, f, h2) = continue-eq-ok (refresh_at_unlocked p.codec now w).0 _ h1 in
      let r : Refreshed p.codec now w (refresh_at_unlocked p.codec now w).1 =
        refresh-Refreshed p.codec now w (λ k. (f k, (refresh_at_unlocked p.codec now w).1)) in
      refreshed-StartedAt (refresh_at_unlocked p.codec now w).1 m lease now v r.synced h2
