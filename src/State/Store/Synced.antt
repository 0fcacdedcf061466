-- ===== src/State/Store/Synced.antt =====
-- A store whose snapshot is what its file replays to: how a refresh brings it about and an append keeps
-- it.
use mathlib.Core.Path.{subst}
use webex_headless_messenger.Common.{
  ℕ, ◌≡◌, refl, sym, ap, ◌∙◌, Option, none, some, List, [], ◌++◌, ok, ok-injective, err-ne-ok,
}
use webex_headless_messenger.Common.Exec.{continue-eq-ok}
use webex_headless_messenger.State.{StateRecord, StateSnapshot, default_snapshot, apply_record}
use webex_headless_messenger.State.Replay.{
  Codec, Disk, missing, file, unreadable, split_lines, load_at, repair_incomplete_tail,
}
use webex_headless_messenger.State.Replay.Runs.{done}
use webex_headless_messenger.State.Replay.Intact.{
  Intact, cut, load_at-Intact, repair-Intact, repair-of_Intact, repair-missing, repair-unreadable,
}
use webex_headless_messenger.State.Store.{
  World, AppendFault, unopened, unready, stops_after, bytes_of, appended, append_bytes, append_disk,
  append_state_record, refresh_at_unlocked, append_after_current_snapshot_unlocked,
}
use webex_headless_messenger.State.Store.Append.{JsonLine, Intact-appended}

abbrev pub IsReadable : Disk → Type 0
IsReadable missing = Unit
IsReadable (file bytes) = Unit
IsReadable (unreadable e) = ⊥

-- The file can be read and replays to the snapshot at `now`.
abbrev pub IsSynced : Codec → ℕ → World → Type 0
IsSynced c now w = IsReadable w.disk × Intact c now (bytes_of w.disk) w.snapshot

module _ (c : Codec) (now : ℕ) where
  pub Intact-nil : Intact c now [] default_snapshot
  unfolding split_lines
  Intact-nil = done

  load-missing : {s : StateSnapshot} → load_at c missing now ≡ ok s → s ≡ default_snapshot
  unfolding load_at
  load-missing h = cc

  -- What a refresh leaves: the repaired file, what it loads to, and all else as it was.
  pub record Refreshed (w w' : World) : Type 0 where
    pub synced : IsSynced c now w'
    pub loaded : load_at c w.disk now ≡ ok w'.snapshot
    pub fault : w'.fault ≡ w.fault
    pub next_attempt_id : w'.next_attempt_id ≡ w.next_attempt_id

  Refreshed-at :
      (w : World) (disk d : Disk) (s : StateSnapshot)
      → w.disk ≡ disk
      → repair_incomplete_tail c w.truncation disk now ≡ (ok tt, d)
      → load_at c d now ≡ ok s
      → Refreshed w (record w { disk = d; snapshot = s })
  Refreshed-at w missing d s e p q =
      let f : d ≡ missing = repair-missing c now w.truncation p in
      let g : s ≡ default_snapshot = load-missing (ap (λ x. load_at c x now) (sym f) ∙ q) in
      record {
        synced =
            subst (λ x. IsReadable x × Intact c now (bytes_of x) s) (sym f)
              (tt, subst (λ x. Intact c now [] x) (sym g) Intact-nil);
        loaded = ap (λ x. load_at c x now) (e ∙ sym f) ∙ q;
        fault = refl;
        next_attempt_id = refl;
      }
  Refreshed-at w (unreadable x) d s e p q = absurd (repair-unreadable c now w.truncation x p)
  Refreshed-at w (file bytes) d s e p q =
      let (m, s', f, i, l) = repair-Intact c now w.truncation bytes p in
      let g : s' ≡ s = ok-injective (
        sym (load_at-Intact c now (cut c now bytes m) i) ∙ ap (λ x. load_at c x now) (sym f) ∙ q) in
      record {
        synced =
            subst (λ x. IsReadable x × Intact c now (bytes_of x) s) (sym f)
              (tt, subst (λ x. Intact c now (cut c now bytes m) x) g i);
        loaded = ap (λ x. load_at c x now) e ∙ l ∙ ap ok g;
        fault = refl;
        next_attempt_id = refl;
      }

  pub refresh-Refreshed :
      (w : World) {w' : World} → refresh_at_unlocked c now w ≡ (ok tt, w') → Refreshed w w'
  unfolding refresh_at_unlocked
  refresh-Refreshed w h =
      let repair = repair_incomplete_tail c w.truncation w.disk now in
      let (_, p, h') = continue-eq-ok repair.0 _ h in
      let (s, q, h'') = continue-eq-ok (load_at c repair.1 now) _ h' in
      subst (Refreshed w) (ap (λ x. x.1) h'')
        (Refreshed-at w w.disk repair.1 s refl (λ k. (p k, repair.1)) q)

  -- A refresh of a file that is intact already only reloads the snapshot.
  pub refresh-of_Intact :
      (w : World) (bytes : List ℕ) {s : StateSnapshot}
      → w.disk ≡ file bytes
      → Intact c now bytes s
      → refresh_at_unlocked c now w ≡ (ok tt, record w { disk = file bytes; snapshot = s })
  unfolding refresh_at_unlocked
  refresh-of_Intact w bytes e i =
      rw (e, repair-of_Intact c now w.truncation bytes i) (rw (load_at-Intact c now bytes i))

  refresh_at-IsSynced :
      (w : World) (d : Disk) {s : StateSnapshot}
      → w.disk ≡ d
      → IsReadable d
      → Intact c now (bytes_of d) s
      → (w' : World) × (refresh_at_unlocked c now w ≡ (ok tt, w')) × (w'.snapshot ≡ s)
  refresh_at-IsSynced w missing {s} e o i = (
    record w { disk = missing; snapshot = default_snapshot },
    unfold refresh_at_unlocked repair_incomplete_tail load_at in rw e,
    ok-injective (sym (load_at-Intact c now [] Intact-nil) ∙ load_at-Intact c now [] i),
  )
  refresh_at-IsSynced w (unreadable x) e o i = absurd o
  refresh_at-IsSynced w (file bytes) {s} e o i =
      (record w { disk = file bytes; snapshot = s }, refresh-of_Intact w bytes e i, refl)

  -- A refresh of a store that is in step with its file loads what the file replays to.
  pub refresh-IsSynced :
      (w : World) {s : StateSnapshot}
      → IsReadable w.disk
      → Intact c now (bytes_of w.disk) s
      → (w' : World) × (refresh_at_unlocked c now w ≡ (ok tt, w')) × (w'.snapshot ≡ s)
  refresh-IsSynced w o i = refresh_at-IsSynced w w.disk refl o i

  -- What a successful append leaves.
  pub record Appended (r : StateRecord) (w w' : World) : Type 0 where
    pub accepted : apply_record w.snapshot r now ≡ ok w'.snapshot
    pub disk : w'.disk ≡ file (bytes_of w.disk ++ appended c (bytes_of w.disk) r)

  append_bytes-ok :
      (r : StateRecord) (f : Option AppendFault) (disk : Disk) (bytes : List ℕ)
      → (append_bytes c r f disk bytes).0 ≡ ok tt
      → (append_bytes c r f disk bytes).1 ≡ file (bytes ++ appended c bytes r)
  append_bytes-ok r none disk bytes h = refl
  append_bytes-ok r (some unopened) disk bytes h = absurd (err-ne-ok h)
  append_bytes-ok r (some unready) disk bytes h = absurd (err-ne-ok h)
  append_bytes-ok r (some (stops_after k)) disk bytes h = absurd (err-ne-ok h)

  append_disk-ok :
      (r : StateRecord) (f : Option AppendFault) (disk : Disk)
      → (append_disk c r f disk).0 ≡ ok tt
      → (append_disk c r f disk).1 ≡ file (bytes_of disk ++ appended c (bytes_of disk) r)
  append_disk-ok r f missing h = append_bytes-ok r f missing [] h
  append_disk-ok r f (file bytes) h = append_bytes-ok r f (file bytes) bytes h
  append_disk-ok r f (unreadable e) h = absurd (err-ne-ok h)

  pub append_after-Appended :
      (r : StateRecord) (w : World) {w' : World}
      → append_after_current_snapshot_unlocked c r now w ≡ (ok tt, w')
      → Appended r w w'
  unfolding append_after_current_snapshot_unlocked append_state_record
  append_after-Appended r w h =
      let (s, p, h') = continue-eq-ok (apply_record w.snapshot r now) _ h in
      let (_, q, h'') = continue-eq-ok (append_disk c r w.fault w.disk).0 _ h' in
      subst (Appended r w) (ap (λ x. x.1) h'')
        (record { accepted = p; disk = append_disk-ok r w.fault w.disk q })

  pub Appended-IsSynced :
      (r : StateRecord) (w w' : World)
      → JsonLine c r
      → IsSynced c now w
      → Appended r w w'
      → IsSynced c now w'
  Appended-IsSynced r w w' j i a =
      subst (λ d. IsReadable d × Intact c now (bytes_of d) w'.snapshot) (sym a.disk)
        (tt, Intact-appended c now (bytes_of w.disk) r i.1 j a.accepted)
