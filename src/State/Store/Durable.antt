-- ===== src/State/Store/Durable.antt =====
-- What a method of the store has promised holds at every later load of the file.
use mathlib.Core.Path.{subst}
use webex_headless_messenger.Common.{
  ℕ, ◌-◌, ◌<◌, String, ◌≡◌, sym, ap, ◌∙◌, inl, inr, true, false, Bool-cases, some, ok,
}
use webex_headless_messenger.Common.Exec.{continue-eq-ok}
use webex_headless_messenger.State.{
  AttemptLease, processed_message, StateRecord, default_snapshot, new_record, ensure_message_id,
  contains_processed_message, active_attempt_lease,
}
use webex_headless_messenger.State.Replay.Times.{SameLog-refl, Replays-SameLog}
use webex_headless_messenger.State.Store.{
  Platform, World, started, processed, leased, leased_event, refresh_at_unlocked,
  append_after_current_snapshot_unlocked, begin_attempt_at, mark_refreshed, mark_processed_at,
  ensure_attempt_owner,
}
use webex_headless_messenger.State.Store.Append.{JsonLine}
use webex_headless_messenger.State.Store.Synced.{
  IsSynced, Refreshed, refresh-Refreshed, append_after-Appended, Appended-IsSynced,
  refresh-IsSynced,
}
use webex_headless_messenger.State.Store.Reload.{
  apply_leased, apply_leased-processed, contains_of_eq, contains-SameLog, reload_after,
  begin_processed, begin_leased, apply_processed,
}
use webex_headless_messenger.Common.Exec.{Exec, ◌>>=◌}
use webex_headless_messenger.State.Store.Started.{begin-StartedAt}

module _ (p : Platform) where
  -- Let `begin_attempt_at` at `now` return a started attempt `a`, and let serde_json write its record as
  -- one line. Then at every `later` time before the end of `a` a second `begin_attempt_at` of the message
  -- on the file that was left returns that the message is leased for the time that `a` has left.
  pub begin_attempt-exclusive :
      (w w' : World) (m : String) (lease lease' now later : ℕ) (a : AttemptLease)
      → begin_attempt_at p m lease now w ≡ (ok (started a), w')
      → JsonLine p.codec (leased_event a)
      → later < a.expires_at
      → (begin_attempt_at p m lease' later w').0 ≡ ok (leased (a.expires_at - later))
  begin_attempt-exclusive w w' m lease lease' now later a h j lt =
      let st = begin-StartedAt p w m lease now h in
      let re = reload_after p (leased_event a) st.base w' now later j st.synced st.written in
      let f : contains_processed_message re.before a.message_id ≡ false =
        sym (contains-SameLog re.same a.message_id)
        ∙ subst (λ x. contains_processed_message st.base.snapshot x ≡ false) (sym st.message)
            st.fresh in
      let g : active_attempt_lease re.after a.message_id ≡ some a =
        apply_leased re.before a later f lt re.applied in
      ap (λ x. x.0)
        (begin_leased p w' _ m lease' later a st.valid re.refreshed
          (contains_of_eq re.after re.before m (apply_leased-processed re.before a later re.applied)
            ∙ subst (λ x. contains_processed_message re.before x ≡ false) st.message f)
          (subst (λ x. active_attempt_lease re.after x ≡ some a) st.message g) lt)

  -- Each method below leaves a store that is in step with its file.
  append-IsSynced :
      (r : StateRecord) (w : World) {w' : World} (now : ℕ)
      → JsonLine p.codec r
      → IsSynced p.codec now w
      → append_after_current_snapshot_unlocked p.codec r now w ≡ (ok tt, w')
      → IsSynced p.codec now w'
  append-IsSynced r w {w'} now j i h =
      Appended-IsSynced p.codec now r w w' j i (append_after-Appended p.codec now r w h)

  pub refresh_then :
      (w : World) (now : ℕ) {A : Type 0} (f : Unit {0} → Exec World A) {a : A} {w' : World}
      → (refresh_at_unlocked p.codec now >>= f) w ≡ (ok a, w')
      → (u : World) × Refreshed p.codec now w u × (f tt u ≡ (ok a, w'))
  refresh_then w now f h =
      let (_, e, q) = continue-eq-ok (refresh_at_unlocked p.codec now w).0 f h in
      (
        (refresh_at_unlocked p.codec now w).1,
        refresh-Refreshed p.codec now w (λ k. (e k, (refresh_at_unlocked p.codec now w).1)),
        q,
      )

  mark_refreshed_lem :
      (w : World) {w' : World} (a : AttemptLease) (now : ℕ)
      → IsSynced p.codec now w
      → JsonLine p.codec (new_record (processed_message a.message_id now))
      → mark_refreshed p a now w ≡ (ok tt, w')
      → IsSynced p.codec now w' × (contains_processed_message w'.snapshot a.message_id ≡ true)
  unfolding mark_refreshed
  mark_refreshed_lem w {w'} a now i j h =
      elim (Bool-cases (contains_processed_message w.snapshot a.message_id)) [
        | inl e ↦
            let q : w ≡ w' = ap (λ z. z.1) (rw e at h) in
            (
              subst (IsSynced p.codec now) q i,
              subst (λ z. contains_processed_message z.snapshot a.message_id ≡ true) q e,
            )
        | inr e ↦
            let (_, _, h') = continue-eq-ok (ensure_attempt_owner a now w.snapshot) _ (rw e at h) in
            let s =
              append_after-Appended p.codec now (new_record (processed_message a.message_id now)) w
                h' in
            (
              append-IsSynced (new_record (processed_message a.message_id now)) w now j i h',
              apply_processed w.snapshot a.message_id now now s.accepted,
            )
      ]

  -- Let `mark_processed_at` succeed at `now`, and let serde_json write its record as one line. Then at
  -- every other time `begin_attempt_at` of the message on the file that was left returns that the
  -- message is processed, where the message id is not blank.
  pub mark_processed-durable :
      (w w' : World) (a : AttemptLease) (lease now later : ℕ)
      → mark_processed_at p a now w ≡ (ok tt, w')
      → JsonLine p.codec (new_record (processed_message a.message_id now))
      → ensure_message_id a.message_id ≡ ok tt
      → (begin_attempt_at p a.message_id lease later w').0 ≡ ok processed
  unfolding mark_processed_at
  mark_processed-durable w w' a lease now later h j v =
      let (u, r, h') = refresh_then w now (λ _. mark_refreshed p a now) h in
      let (i, e) = mark_refreshed_lem u a now r.synced j h' in
      let (s, q, g) =
        Replays-SameLog p.codec now later default_snapshot (SameLog-refl default_snapshot) i.1 in
      let (x, f, l) = refresh-IsSynced p.codec later w' i.0 q in
      ap (λ z. z.0)
        (begin_processed p w' x a.message_id lease later v f (
          ap (λ z. contains_processed_message z a.message_id) l
          ∙ sym (contains-SameLog g a.message_id)
          ∙ e))
