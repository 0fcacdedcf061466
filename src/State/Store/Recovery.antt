-- ===== src/State/Store/Recovery.antt =====
-- A store whose append has failed.
use mathlib.Core.Path.{subst}
use webex_headless_messenger.Common.{
  ℕ, ◌≡◌, refl, sym, ◌⊎◌, inl, inr, ◌&&◌, Bool-cases, ◌+◌, length, ltb, leb, some, List, ◌++◌, take,
  Result, io, json, ok, err,
}
use webex_headless_messenger.State.{StateRecord, StateSnapshot, apply_record}
use webex_headless_messenger.State.Replay.{
  Codec, Disk, missing, file, unreadable, truncates, load_at,
}
use webex_headless_messenger.State.Replay.Intact.{Intact, cut, load_at-Intact, repair-loads}
use webex_headless_messenger.State.Store.{
  World, AppendFault, unopened, unready, stops_after, bytes_of, missing_newline, appended,
  append_bytes, append_disk, stop_error, append_state_record, refresh_at_unlocked,
  append_after_current_snapshot_unlocked,
}
use webex_headless_messenger.State.Store.Append.{JsonLine}
use webex_headless_messenger.State.Store.Torn.{append_atomic}
use webex_headless_messenger.State.Store.Synced.{
  IsReadable, IsSynced, refresh-IsSynced, refresh-Refreshed,
}

-- An error of a write or of serde_json.
abbrev pub IsWriteError : Result (Unit {0}) → Type 0
IsWriteError result = (result ≡ err io) ⊎ (result ≡ err json)

stop_error-cases :
    (c : Codec) (r : StateRecord) (bytes : List ℕ) (k : ℕ)
    → IsWriteError (err (stop_error c r bytes k))
unfolding stop_error
stop_error-cases c r bytes k =
    let start = length (missing_newline bytes) in
    elim (Bool-cases (leb start k && ltb k (start + length (c.to_writer r)))) [
      | inl e ↦ rw e (inr refl)
      | inr e ↦ rw e (inl refl)
    ]

module _ (c : Codec) (now : ℕ) where
  -- The next refresh succeeds, is in step with its file, and loads one snapshot or the other.
  pub record Recovers (w : World) (s t : StateSnapshot) : Type 0 where
    pub world : World
    pub refreshed : refresh_at_unlocked c now w ≡ (ok tt, world)
    pub synced : IsSynced c now world
    pub snapshot : (world.snapshot ≡ s) ⊎ (world.snapshot ≡ t)

  refresh-loads :
      (w : World) (bytes : List ℕ) {x : StateSnapshot}
      → w.truncation ≡ truncates
      → w.disk ≡ file bytes
      → load_at c (file bytes) now ≡ ok x
      → (u : World) × (refresh_at_unlocked c now w ≡ (ok tt, u))
        × IsSynced c now u
        × (u.snapshot ≡ x)
  unfolding refresh_at_unlocked
  refresh-loads w bytes {x} t e h =
      let (m, p, i) = repair-loads c now bytes h in
      (
        record w { disk = file (cut c now bytes m); snapshot = x },
        rw (e, t, p) (rw (load_at-Intact c now (cut c now bytes m) i)),
        (tt, i),
        refl,
      )

  Recovers-loads :
      (w : World) (bytes : List ℕ) {s t : StateSnapshot}
      → w.truncation ≡ truncates
      → w.disk ≡ file bytes
      → (load_at c (file bytes) now ≡ ok s) ⊎ (load_at c (file bytes) now ≡ ok t)
      → Recovers w s t
  Recovers-loads w bytes tr e (inl h) =
      let (u, f, i, l) = refresh-loads w bytes tr e h in
      record { world = u; refreshed = f; synced = i; snapshot = inl l }
  Recovers-loads w bytes tr e (inr h) =
      let (u, f, i, l) = refresh-loads w bytes tr e h in
      record { world = u; refreshed = f; synced = i; snapshot = inr l }

  Recovers-synced :
      (w : World) {s t : StateSnapshot}
      → IsReadable w.disk
      → Intact c now (bytes_of w.disk) s
      → Recovers w s t
  Recovers-synced w o i =
      let (u, f, l) = refresh-IsSynced c now w o i in
      record {
        world = u;
        refreshed = f;
        synced = (refresh-Refreshed c now w f).synced;
        snapshot = inl l;
      }

  module _ (r : StateRecord) (w : World) {s t : StateSnapshot} (tr : w.truncation ≡ truncates)
      (j : JsonLine c r) (p : apply_record s r now ≡ ok t) where
    append_bytes-Recovers :
        (f : AppendFault) (disk : Disk)
        → IsReadable disk
        → Intact c now (bytes_of disk) s
        → let (result, disk') = append_bytes c r (some f) disk (bytes_of disk) in
          IsWriteError result × Recovers (record w { disk = disk' }) s t
    append_bytes-Recovers unopened disk o i =
        (inl refl, Recovers-synced (record w { disk = disk }) o i)
    append_bytes-Recovers unready disk o i =
        (inl refl, Recovers-synced (record w { disk = file (bytes_of disk) }) tt i)
    append_bytes-Recovers (stops_after k) disk o i =
        let rest = bytes_of disk ++ take k (appended c (bytes_of disk) r) in
        (
          stop_error-cases c r (bytes_of disk) k,
          Recovers-loads (record w { disk = file rest }) rest tr refl
              (append_atomic c now (bytes_of disk) r k i j p),
        )

    append_disk-Recovers :
        (f : AppendFault) (disk : Disk)
        → IsReadable disk
        → Intact c now (bytes_of disk) s
        → let (result, disk') = append_disk c r (some f) disk in
          IsWriteError result × Recovers (record w { disk = disk' }) s t
    append_disk-Recovers f missing o i = append_bytes-Recovers f missing o i
    append_disk-Recovers f (file bytes) o i = append_bytes-Recovers f (file bytes) o i
    append_disk-Recovers f (unreadable e) o i = absurd o

  -- Let a store be in step with its file, let serde_json write `r` as one line, let `r` take the snapshot to
  -- `s`, and let the append fail anywhere. Then the call returns an error of io or of serde_json and keeps the
  -- snapshot, and where the file can be truncated the next refresh recovers: it succeeds, leaves the store in
  -- step with its file again, and loads the old snapshot or `s`.
  pub append_after_fault :
      (r : StateRecord) (w : World) (s : StateSnapshot) (f : AppendFault)
      → IsSynced c now w
      → JsonLine c r
      → apply_record w.snapshot r now ≡ ok s
      → w.fault ≡ some f
      → w.truncation ≡ truncates
      → let (result, w') = append_after_current_snapshot_unlocked c r now w in
        IsWriteError result × (w'.snapshot ≡ w.snapshot) × Recovers w' w.snapshot s
  unfolding append_after_current_snapshot_unlocked append_state_record
  append_after_fault r w s f i j p e tr =
      let (failed, rest) =
        subst
          (λ fault.
            let (result, disk') = append_disk c r fault w.disk in
            IsWriteError result × Recovers (record w { disk = disk' }) w.snapshot s)
          (sym e) (append_disk-Recovers r w tr j p f w.disk i.0 i.1) in
      elim failed [
        | inl q ↦ rw (p, q) (inl refl, refl, rest)
        | inr q ↦ rw (p, q) (inr refl, refl, rest)
      ]
