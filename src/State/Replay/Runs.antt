-- ===== src/State/Replay/Runs.antt =====
-- The loop of `parse_snapshot_bytes` as a relation: which lines lead from one snapshot to another.
use mathlib.Core.Path.{subst}
use mathlib.Core.List.{append-nil}
use webex_headless_messenger.Common.{
  ℕ, ◌+◌, ◌≡◌, refl, sym, ap, ◌∙◌, ◌⊎◌, inl, inr, Bool, true, false, Bool-cases, ◌==◌, List, [],
  ◌∷◌, ◌++◌, length, arith, Error, Result, ok, err, ◌>>=◌, none, some, Option, ok-injective,
  err-ne-ok, not,
}
use webex_headless_messenger.Common.OrderedMap
use webex_headless_messenger.State.{
  StateRecord, StateSnapshot, is_live, prune_expired_attempts, apply_record, apply_event,
  state_record_version,
}
use webex_headless_messenger.State.Replay.{
  Codec, Line, Outcome, torn, failed, advance, applied, decoded, decode_line, line_outcome,
  parse_loop, line_size,
}
use webex_headless_messenger.State.Replay.Lines.{total_size, WellSplit, WellSplit-tail}

pub Outcome-cases :
    (o : Outcome)
    → (o ≡ torn) ⊎ (((e : Error) × (o ≡ failed e)) ⊎ ((s : StateSnapshot) × (o ≡ advance s)))
Outcome-cases torn = inl refl
Outcome-cases (failed e) = inr (inl (e, refl))
Outcome-cases (advance s) = inr (inr (s, refl))

pub advance-injective : {s t : StateSnapshot} → advance s ≡ advance t → s ≡ t
advance-injective h = cc

-- No lease of the snapshot has run out.
abbrev pub IsPruned : ℕ → StateSnapshot → Type 0
IsPruned now s = prune_expired_attempts now s ≡ s

prune-IsPruned : (now : ℕ) (s : StateSnapshot) → IsPruned now (prune_expired_attempts now s)
unfolding prune_expired_attempts
prune-IsPruned now s = rw (OrderedMap.retain-retain (is_live now) s.attempt_leases)

IsPruned-of_prune :
    (now : ℕ) (m : Result StateSnapshot) {t : StateSnapshot}
    → (m >>= λ u. ok (prune_expired_attempts now u)) ≡ ok t
    → IsPruned now t
IsPruned-of_prune now (ok u) h = subst (IsPruned now) (ok-injective h) (prune-IsPruned now u)
IsPruned-of_prune now (err e) h = absurd (err-ne-ok h)

pub apply_record-IsPruned :
    (s : StateSnapshot) (r : StateRecord) (now : ℕ) {t : StateSnapshot}
    → apply_record s r now ≡ ok t
    → IsPruned now t
unfolding apply_record
apply_record-IsPruned s r now h = elim (Bool-cases (r.version == state_record_version)) [
  | inl e ↦ IsPruned-of_prune now (apply_event s r.event now) (rw e at h)
  | inr e ↦ absurd (err-ne-ok (rw e at h))
]

pub applied-advance :
    (m : Result StateSnapshot) {t : StateSnapshot} → applied m ≡ advance t → m ≡ ok t
applied-advance (ok s) h = cc
applied-advance (err e) h = cc

decoded-IsPruned :
    (drop : Bool) (s : StateSnapshot) (now : ℕ) (m : Result (Option StateRecord))
    {t : StateSnapshot}
    → IsPruned now s
    → decoded drop s now m ≡ advance t
    → IsPruned now t
decoded-IsPruned true s now (err e) p h = cc
decoded-IsPruned false s now (err e) p h = cc
decoded-IsPruned drop s now (ok none) p h = subst (IsPruned now) (advance-injective h) p
decoded-IsPruned drop s now (ok (some r)) p h =
    apply_record-IsPruned s r now (applied-advance (apply_record s r now) h)

applied-ne-torn : (m : Result StateSnapshot) → ¬ (applied m ≡ torn)
applied-ne-torn (ok s) h = cc
applied-ne-torn (err e) h = cc

decoded-ne-torn :
    (s : StateSnapshot) (now : ℕ) (m : Result (Option StateRecord))
    → ¬ (decoded false s now m ≡ torn)
decoded-ne-torn s now (err e) h = cc
decoded-ne-torn s now (ok none) h = cc
decoded-ne-torn s now (ok (some r)) h = applied-ne-torn (apply_record s r now) h

module _ (c : Codec) (now : ℕ) where
  -- The lines, none of them torn, lead from the first snapshot to the second.
  pub data Replays : StateSnapshot → List Line → StateSnapshot → Type 0 where
    done : {s : StateSnapshot} → Replays s [] s
    next :
        {s t u : StateSnapshot} {line : Line} {rest : List Line}
        → line_outcome c now true s line ≡ advance t
        → Replays t rest u
        → Replays s (line ∷ rest) u

  pub line_outcome-IsPruned :
      (s : StateSnapshot) (line : Line) {t : StateSnapshot}
      → IsPruned now s
      → line_outcome c now true s line ≡ advance t
      → IsPruned now t
  unfolding line_outcome
  line_outcome-IsPruned s (l, has_newline) p h =
      decoded-IsPruned (not has_newline) s now (decode_line c l) p h

  torn-no_newline :
      (s : StateSnapshot) (l : List ℕ) (has_newline : Bool)
      → line_outcome c now true s (l, has_newline) ≡ torn
      → has_newline ≡ false
  unfolding line_outcome
  torn-no_newline s l false h = refl
  torn-no_newline s l true h = absurd (decoded-ne-torn s now (decode_line c l) h)

  -- What a run of the loop that returns has read: all lines, or all but a torn last one.
  pub data Parsed (total : ℕ) (s : StateSnapshot) (offset : ℕ) (ls : List Line)
      : StateSnapshot → ℕ → Type 0 where
    whole : {t : StateSnapshot} {m : ℕ} → Replays s ls t → m ≡ total → Parsed total s offset ls t m
    dropped :
        {t : StateSnapshot} {m : ℕ} (read : List Line) (tail : List ℕ)
        → ls ≡ read ++ (tail, false) ∷ []
        → Replays s read t
        → line_outcome c now true t (tail, false) ≡ torn
        → m ≡ offset + total_size read
        → Parsed total s offset ls t m

  parse_loop-advance :
      (s : StateSnapshot) {t : StateSnapshot} (total offset n : ℕ) (line : Line) (rest : List Line)
      → line_outcome c now true s line ≡ advance t
      → parse_loop c now true total s offset n (line ∷ rest)
        ≡ parse_loop c now true total t (offset + line_size line) (n + 1) rest
  unfolding parse_loop
  parse_loop-advance s total offset n line rest e = rw (e, parse_loop)

  pub parse_loop-torn :
      (s : StateSnapshot) (total offset n : ℕ) (line : Line) (rest : List Line)
      → line_outcome c now true s line ≡ torn
      → parse_loop c now true total s offset n (line ∷ rest) ≡ ok (s, offset)
  unfolding parse_loop
  parse_loop-torn s total offset n line rest e = rw (e, parse_loop)

  parse_loop-at :
      (s : StateSnapshot) (total : ℕ) (ms : List Line) {offset offset' n n' : ℕ}
      → offset ≡ offset'
      → n ≡ n'
      → parse_loop c now true total s offset n ms ≡ parse_loop c now true total s offset' n' ms
  parse_loop-at s total ms p q = cc

module _ {c : Codec} {now : ℕ} where
  pub Replays-IsPruned :
      {s t : StateSnapshot} {ls : List Line}
      → IsPruned now s
      → Replays c now s ls t
      → IsPruned now t
  Replays-IsPruned p done = p
  Replays-IsPruned p (next {s = s} {line = line} e r) =
      Replays-IsPruned (line_outcome-IsPruned c now s line p e) r

  pub Replays-snoc :
      {s t u : StateSnapshot} {ls : List Line} (line : Line)
      → Replays c now s ls t
      → line_outcome c now true t line ≡ advance u
      → Replays c now s (ls ++ line ∷ []) u
  Replays-snoc line done e = next e done
  Replays-snoc line (next f r) e = next f (Replays-snoc line r e)

  -- The loop runs through such lines and goes on with what follows them.
  pub parse_loop-append :
      {s t : StateSnapshot} {ls : List Line} (total offset n : ℕ) (ms : List Line)
      → Replays c now s ls t
      → parse_loop c now true total s offset n (ls ++ ms)
        ≡ parse_loop c now true total t (offset + total_size ls) (n + length ls) ms
  parse_loop-append {s} total offset n ms done =
      parse_loop-at c now s total ms (omega arith) (omega arith)
  parse_loop-append {s} {t} total offset n ms (next {line = line} {rest = rest} e r) =
      parse_loop-advance c now s total offset n line (rest ++ ms) e
      ∙ parse_loop-append total (offset + line_size line) (n + 1) ms r
      ∙ parse_loop-at c now t total ms (omega arith) (omega arith)

  pub parse_loop-Replays :
      {s t : StateSnapshot} {ls : List Line} (total offset n : ℕ)
      → IsPruned now t
      → Replays c now s ls t
      → parse_loop c now true total s offset n ls ≡ ok (t, total)
  parse_loop-Replays {s} {t} {ls} total offset n p r =
      ap (parse_loop c now true total s offset n) (sym (append-nil ls))
      ∙ parse_loop-append total offset n [] r
      ∙ unfold parse_loop in ap (λ x. ok (x, total)) p

  Parsed-cons :
      {total offset m : ℕ} {s t u : StateSnapshot} {ls : List Line} (line : Line)
      → line_outcome c now true s line ≡ advance t
      → Parsed c now total t (offset + line_size line) ls u m
      → Parsed c now total s offset (line ∷ ls) u m
  Parsed-cons line e (whole r p) = whole (next e r) p
  Parsed-cons line e (dropped read tail p r f q) =
      dropped (line ∷ read) tail (ap (◌∷◌ line) p) (next e r) f (omega arith)

  Parsed-torn :
      {total offset m : ℕ} {s t : StateSnapshot} (line : Line) (rest : List Line)
      → WellSplit (line ∷ rest)
      → line_outcome c now true s line ≡ torn
      → t ≡ s
      → m ≡ offset
      → Parsed c now total s offset (line ∷ rest) t m
  Parsed-torn {s = s} (l, true) rest w e p q = cc (torn-no_newline c now s l true e)
  Parsed-torn {total} {offset} {m} {s} (l, false) rest w e p q =
      subst (λ x. Parsed c now total s offset ((l, false) ∷ rest) x m) (sym p)
        (dropped [] l (ap (◌∷◌ (l, false)) w.2) done e (omega arith))

  pub parse_loop-Parsed :
      (total offset n : ℕ) (s : StateSnapshot) (ls : List Line) {t : StateSnapshot} {m : ℕ}
      → WellSplit ls
      → IsPruned now s
      → parse_loop c now true total s offset n ls ≡ ok (t, m)
      → Parsed c now total s offset ls t m
  unfolding parse_loop
  parse_loop-Parsed total offset n s [] {t} {m} w p h =
      subst (λ x. Parsed c now total s offset [] x m) (sym p ∙ ap (λ x. x.0) (ok-injective h))
        (whole done (sym (ap (λ x. x.1) (ok-injective h))))
  parse_loop-Parsed total offset n s (line ∷ rest) {t} {m} w p h =
      elim (Outcome-cases (line_outcome c now true s line)) [
        | inl e ↦
            Parsed-torn line rest w e (sym (ap (λ x. x.0) (ok-injective (rw (e, parse_loop) at h))))
              (sym (ap (λ x. x.1) (ok-injective (rw (e, parse_loop) at h))))
        | inr (inl (x, e)) ↦ absurd (err-ne-ok (rw (e, parse_loop) at h))
        | inr (inr (u, e)) ↦ Parsed-cons line e (
            parse_loop-Parsed total (offset + line_size line) (n + 1) u rest
              (WellSplit-tail line rest w) (line_outcome-IsPruned c now s line p e)
              (rw (e, parse_loop) at h))
      ]
