-- ===== src/State/Replay/Intact.antt =====
-- A file whose every line is a record or blank, and what the repair makes of any file.
use mathlib.Core.Path.{subst}
use webex_headless_messenger.Common.{
  ℕ, ◌<◌, ◌≡◌, refl, sym, ap, ◌∙◌, true, false, inl, inr, Bool-cases, Error, err-ne-ok,
  Result-cases, List, [], ◌∷◌, ◌++◌, length, take, ltb, lt→ltb, arith, ok, ok-injective, >>=-eq-ok,
  if◌then◌else◌,
}
use webex_headless_messenger.Common.OrderedMap.{retain}
use webex_headless_messenger.State.{StateSnapshot, default_snapshot, prune_expired_attempts}
use webex_headless_messenger.State.Replay.{
  Codec, Line, split_lines, parse_snapshot_bytes, Disk, missing, file, unreadable, Truncation,
  truncates, refuses, unsynced, truncate_file, cut_tail, load_at, repair_incomplete_tail,
}
use webex_headless_messenger.State.Replay.Lines.{
  total_size, join_lines, WellSplit, split_lines-WellSplit, join_lines-split_lines,
  split_lines-join_lines, length-join_lines, take-join_lines, total_size-snoc, length-pos,
  WellSplit-init,
}
use webex_headless_messenger.State.Replay.Runs.{
  IsPruned, Replays, Replays-IsPruned, Parsed, whole, dropped, parse_loop-Replays,
  parse_loop-Parsed,
}

-- Every line of the file is read, the last one too, and they build the snapshot.
abbrev pub Intact : Codec → ℕ → List ℕ → StateSnapshot → Type 0
Intact c now bytes s = Replays c now default_snapshot (split_lines bytes) s

pub default-IsPruned : (now : ℕ) → IsPruned now default_snapshot
unfolding prune_expired_attempts retain
default-IsPruned now = refl

module _ (c : Codec) (now : ℕ) where
  pub Intact-IsPruned : (bytes : List ℕ) {s : StateSnapshot} → Intact c now bytes s → IsPruned now s
  Intact-IsPruned bytes r = Replays-IsPruned (default-IsPruned now) r

  -- The loop on an intact file reads it to its end.
  pub parse_snapshot_bytes-Intact :
      (bytes : List ℕ) {s : StateSnapshot}
      → Intact c now bytes s
      → parse_snapshot_bytes c bytes now true ≡ ok (s, length bytes)
  unfolding parse_snapshot_bytes
  parse_snapshot_bytes-Intact bytes r =
      parse_loop-Replays (length bytes) 0 1 (Intact-IsPruned bytes r) r

  pub parse_snapshot_bytes-Parsed :
      (bytes : List ℕ) {s : StateSnapshot} {m : ℕ}
      → parse_snapshot_bytes c bytes now true ≡ ok (s, m)
      → Parsed c now (length bytes) default_snapshot 0 (split_lines bytes) s m
  parse_snapshot_bytes-Parsed bytes h =
      parse_loop-Parsed (length bytes) 0 1 default_snapshot (split_lines bytes)
        (split_lines-WellSplit bytes) (default-IsPruned now) (unfold parse_snapshot_bytes in h)

  pub load_at-Intact :
      (bytes : List ℕ) {s : StateSnapshot}
      → Intact c now bytes s
      → load_at c (file bytes) now ≡ ok s
  unfolding load_at
  load_at-Intact bytes r = rw (parse_snapshot_bytes-Intact bytes r)

  -- Cutting off the torn tail leaves the lines before it.
  pub Intact-take :
      (bytes : List ℕ) (read : List Line) (tail : List ℕ) {s : StateSnapshot}
      → split_lines bytes ≡ read ++ (tail, false) ∷ []
      → Replays c now default_snapshot read s
      → Intact c now (take (total_size read) bytes) s × (total_size read < length bytes)
  Intact-take bytes read tail {s} p r =
      let w = WellSplit-init read tail (subst WellSplit p (split_lines-WellSplit bytes)) in
      let e : join_lines (read ++ (tail, false) ∷ []) ≡ bytes =
        ap join_lines (sym p) ∙ join_lines-split_lines bytes in
      let q : take (total_size read) bytes ≡ join_lines read =
        ap (take (total_size read)) (sym e) ∙ take-join_lines read ((tail, false) ∷ []) in
      (
        subst (λ ls. Replays c now default_snapshot ls s)
            (sym (ap split_lines q ∙ split_lines-join_lines read w.0)) r,
        omega (
          arith,
          ap length e,
          length-join_lines (read ++ (tail, false) ∷ []),
          total_size-snoc read tail,
          length-pos tail w.1,
        ),
      )

  abbrev pub cut : List ℕ → ℕ → List ℕ
  cut bytes m = if ltb m (length bytes) then take m bytes else bytes

  cut-Intact :
      (bytes : List ℕ) {s : StateSnapshot} {m : ℕ}
      → Parsed c now (length bytes) default_snapshot 0 (split_lines bytes) s m
      → Intact c now (cut bytes m) s
  cut-Intact bytes {s} {m} (whole r e) =
      let f : ltb m (length bytes) ≡ false = ground arith in
      subst (λ b. Intact c now (if b then take m bytes else bytes) s) (sym f) r
  cut-Intact bytes {s} {m} (dropped read tail p r o e) =
      let (i, lt) = Intact-take bytes read tail p r in
      let q : m ≡ total_size read = omega arith in
      subst (λ k. Intact c now (cut bytes k) s) (sym q)
        (subst (λ b. Intact c now (if b then take (total_size read) bytes else bytes) s)
          (sym (lt→ltb _ _ lt)) i)

  cut_tail-cut :
      (t : Truncation) (bytes : List ℕ) (s : StateSnapshot) (m : ℕ) {d : Disk}
      → cut_tail t bytes (ok (s, m)) ≡ (ok tt, d)
      → d ≡ file (cut bytes m)
  cut_tail-cut t bytes s m {d} h = elim (Bool-cases (ltb m (length bytes))) [
    | inr f ↦ rw f (ap (λ x. x.1) (sym (rw f at h)))
    | inl f ↦ rw f (truncated t (rw f at h))
  ]
    where
      truncated : (t : Truncation) → truncate_file t m bytes ≡ (ok tt, d) → d ≡ file (take m bytes)
      truncated truncates h = ap (λ x. x.1) (sym h)
      truncated refuses h = absurd (err-ne-ok (ap (λ x. x.0) h))
      truncated unsynced h = absurd (err-ne-ok (ap (λ x. x.0) h))

  -- The repair keeps a prefix of the file, which is intact and builds what the file builds.
  pub repair-Intact :
      (t : Truncation) (bytes : List ℕ) {d : Disk}
      → repair_incomplete_tail c t (file bytes) now ≡ (ok tt, d)
      → (m : ℕ) × (s : StateSnapshot) × (d ≡ file (cut bytes m))
        × Intact c now (cut bytes m) s
        × (load_at c (file bytes) now ≡ ok s)
  unfolding repair_incomplete_tail load_at
  repair-Intact t bytes {d} h = elim (Result-cases (parse_snapshot_bytes c bytes now true)) [
    | inr (x, e) ↦ absurd (err-ne-ok (ap (λ z. z.0) (rw e at h)))
    | inl ((s, m), e) ↦ (
      m,
      s,
      cut_tail-cut t bytes s m (rw e at h),
      cut-Intact bytes (parse_snapshot_bytes-Parsed bytes e),
      rw e refl,
    )
  ]

  -- A file that loads is repaired, where it can be truncated.
  pub repair-loads :
      (bytes : List ℕ) {s : StateSnapshot}
      → load_at c (file bytes) now ≡ ok s
      → (m : ℕ) × (repair_incomplete_tail c truncates (file bytes) now
          ≡ (ok tt, file (cut bytes m)))
        × Intact c now (cut bytes m) s
  unfolding repair_incomplete_tail load_at
  repair-loads bytes {s} h =
      let (parsed, e, q) = >>=-eq-ok (parse_snapshot_bytes c bytes now true) _ h in
      (
        parsed.1,
        rw e (elim (Bool-cases (ltb parsed.1 (length bytes))) [
          | inl f ↦ rw f refl
          | inr f ↦ rw f refl
        ]),
        subst (Intact c now (cut bytes parsed.1)) (ok-injective q)
            (cut-Intact bytes (parse_snapshot_bytes-Parsed bytes e)),
      )

  pub repair-of_Intact :
      (t : Truncation) (bytes : List ℕ) {s : StateSnapshot}
      → Intact c now bytes s
      → repair_incomplete_tail c t (file bytes) now ≡ (ok tt, file bytes)
  unfolding repair_incomplete_tail
  repair-of_Intact t bytes r =
      let f : ltb (length bytes) (length bytes) ≡ false = ground arith in
      rw (parse_snapshot_bytes-Intact bytes r) (rw f refl)

  pub repair-missing :
      (t : Truncation) {d : Disk}
      → repair_incomplete_tail c t missing now ≡ (ok tt, d)
      → d ≡ missing
  unfolding repair_incomplete_tail
  repair-missing t h = ap (λ x. x.1) (sym h)

  pub repair-unreadable :
      (t : Truncation) (e : Error) {d : Disk}
      → ¬ (repair_incomplete_tail c t (unreadable e) now ≡ (ok tt, d))
  unfolding repair_incomplete_tail
  repair-unreadable t e h = err-ne-ok (ap (λ x. x.0) h)

  -- Whatever the file holds, if the repair succeeds, then a second repair changes nothing more and succeeds,
  -- even where the file cannot be truncated any more, and the repaired file loads as the file loaded before.
  pub repair-repair :
      (t t' : Truncation) (disk : Disk) {d : Disk}
      → repair_incomplete_tail c t disk now ≡ (ok tt, d)
      → (repair_incomplete_tail c t' d now ≡ (ok tt, d)) × (load_at c d now ≡ load_at c disk now)
  repair-repair t t' missing {d} h =
      subst
        (λ x.
          (repair_incomplete_tail c t' x now ≡ (ok tt, x))
          × (load_at c x now ≡ load_at c missing now))
        (sym (repair-missing t h)) (unfold repair_incomplete_tail in refl, refl)
  repair-repair t t' (unreadable e) h = absurd (repair-unreadable t e h)
  repair-repair t t' (file bytes) h =
      let (m, s, e, i, l) = repair-Intact t bytes h in
      subst
        (λ x.
          (repair_incomplete_tail c t' x now ≡ (ok tt, x))
          × (load_at c x now ≡ load_at c (file bytes) now))
        (sym e) (repair-of_Intact t' (cut bytes m) i, load_at-Intact (cut bytes m) i ∙ sym l)
