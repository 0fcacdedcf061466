-- ===== src/State/Store/Append.antt =====
-- An append to an intact state file: what is read back, and what a torn append leaves.
use mathlib.Core.Path.{subst}
use mathlib.Core.List.{append_assoc, append-nil}
use webex_headless_messenger.Common.{
  ℕ, ◌<◌, ◌≡◌, ◌≢◌, refl, sym, ap, ◌∙◌, Bool, true, false, Option, none, some, List, [], ◌∷◌, ◌++◌,
  length, take, arith, Error, Result, ok, err,
}
use webex_headless_messenger.Common.Text.{from_utf8, trim}
use webex_headless_messenger.State.{StateRecord, StateSnapshot, default_snapshot, apply_record}
use webex_headless_messenger.State.Replay.{
  Codec, Line, newline, split_lines, torn, advance, applied, decoded, decode_line, line_outcome,
}
use webex_headless_messenger.State.Replay.Lines.{
  NoNewline, AllComplete, WellSplit, AllComplete-WellSplit, join_lines, join_lines-append,
  split_lines-WellSplit, join_lines-split_lines, split_lines-join_lines,
}
use webex_headless_messenger.State.Replay.Runs.{Replays, next, Replays-snoc}
use webex_headless_messenger.State.Replay.Intact.{Intact}
use webex_headless_messenger.State.Store.{missing_newline, appended}

-- What the log relies on of serde_json at one record: its text has no newline, it reads back, and no
-- proper beginning of it is read as a record or as a blank line.
pub record JsonLine (c : Codec) (r : StateRecord) : Type 0 where
  pub no_newline : NoNewline (c.to_writer r)
  pub reads_back : decode_line c (c.to_writer r) ≡ ok (some r)
  pub torn_fails :
      (k : ℕ)
      → 0 < k
      → k < length (c.to_writer r)
      → (e : Error) × (decode_line c (take k (c.to_writer r)) ≡ err e)

missing_newline-line :
    (line : List ℕ) (bs : List ℕ)
    → missing_newline (line ++ newline ∷ bs) ≡ missing_newline (newline ∷ bs)
unfolding missing_newline
missing_newline-line [] bs = refl
missing_newline-line (b ∷ []) bs = refl
missing_newline-line (b ∷ c ∷ line) bs = missing_newline-line (c ∷ line) bs

missing_newline-newline : (bs : List ℕ) → missing_newline (newline ∷ bs) ≡ missing_newline bs
unfolding missing_newline
missing_newline-newline [] = refl
missing_newline-newline (b ∷ bs) = refl

missing_newline-last :
    (line : List ℕ) → NoNewline line → line ≢ [] → missing_newline line ≡ newline ∷ []
unfolding missing_newline
missing_newline-last [] h n = absurd (n refl)
missing_newline-last (b ∷ []) h n = ground arith
missing_newline-last (b ∷ c ∷ line) h n = missing_newline-last (c ∷ line) h.1 (λ e. cc)

decoded_complete :
    (s : StateSnapshot) (now : ℕ) (m : Result (Option StateRecord)) {t : StateSnapshot}
    → decoded true s now m ≡ advance t
    → decoded false s now m ≡ advance t
decoded_complete s now (ok none) h = h
decoded_complete s now (ok (some r)) h = h
decoded_complete s now (err e) h = cc

missing_newline-line_bytes :
    (line : List ℕ) (bs : List ℕ)
    → missing_newline ((line ++ newline ∷ []) ++ bs) ≡ missing_newline bs
missing_newline-line_bytes line bs =
    ap missing_newline (append_assoc line (newline ∷ []) bs)
    ∙ missing_newline-line line bs
    ∙ missing_newline-newline bs

close_line :
    (line : List ℕ) {xs : List ℕ} (bs : List ℕ)
    → xs ≡ bs ++ missing_newline bs
    → (line ++ newline ∷ []) ++ xs
      ≡ ((line ++ newline ∷ []) ++ bs) ++ missing_newline ((line ++ newline ∷ []) ++ bs)
close_line line bs p =
    ap (λ x. (line ++ newline ∷ []) ++ x) p
    ∙ sym (append_assoc (line ++ newline ∷ []) bs (missing_newline bs))
    ∙ ap (λ m. ((line ++ newline ∷ []) ++ bs) ++ m) (sym (missing_newline-line_bytes line bs))

close_last :
    (line : List ℕ)
    → NoNewline line
    → line ≢ []
    → (line ++ newline ∷ []) ++ [] ≡ ((line ++ []) ++ []) ++ missing_newline ((line ++ []) ++ [])
close_last line h n = simp (append-nil, missing_newline-last line h n)

module _ (c : Codec) (now : ℕ) where
  line_outcome_complete :
      (s : StateSnapshot) (line : List ℕ) {t : StateSnapshot}
      → line_outcome c now true s (line, false) ≡ advance t
      → line_outcome c now true s (line, true) ≡ advance t
  unfolding line_outcome
  line_outcome_complete s line e = decoded_complete s now (decode_line c line) e

  -- Completing the last line of a file changes nothing of what is read.
  Replays-close :
      {s t : StateSnapshot} (ls : List Line)
      → WellSplit ls
      → Replays c now s ls t
      → (ms : List Line) × AllComplete ms
        × (join_lines ms ≡ join_lines ls ++ missing_newline (join_lines ls))
        × Replays c now s ms t
  Replays-close [] w r = ([], tt, unfold missing_newline in refl, r)
  Replays-close ((line, true) ∷ rest) w (next e r) =
      let (ms, a, p, q) = Replays-close rest w.1 r in
      ((line, true) ∷ ms, ((w.0, refl), a), close_line line (join_lines rest) p, next e q)
  Replays-close {s} ((line, false) ∷ []) w (next e r) = (
    (line, true) ∷ [],
    ((w.0, refl), tt),
    close_last line w.0 w.1,
    next (line_outcome_complete s line e) r,
  )
  Replays-close ((line, false) ∷ x ∷ rest) w (next e r) = cc w.2

  -- The file with its last line completed, as lines.
  pub record Base (bytes : List ℕ) (s : StateSnapshot) : Type 0 where
    pub lines : List Line
    pub complete : AllComplete lines
    pub joined : join_lines lines ≡ bytes ++ missing_newline bytes
    pub replays : Replays c now default_snapshot lines s

  pub Base-of_Intact : (bytes : List ℕ) {s : StateSnapshot} → Intact c now bytes s → Base bytes s
  Base-of_Intact bytes {s} i =
      let (ms, a, p, r) = Replays-close (split_lines bytes) (split_lines-WellSplit bytes) i in
      record {
        lines = ms;
        complete = a;
        joined = p ∙ ap (λ x. x ++ missing_newline x) (join_lines-split_lines bytes);
        replays = r;
      }

  -- More lines behind a completed file.
  pub Intact-more :
      {bytes : List ℕ} {s t : StateSnapshot} (b : Base bytes s) (ms : List Line)
      → WellSplit ms
      → Replays c now default_snapshot (b.lines ++ ms) t
      → Intact c now ((bytes ++ missing_newline bytes) ++ join_lines ms) t
  Intact-more {bytes} {t = t} b ms w r =
      let p : (bytes ++ missing_newline bytes) ++ join_lines ms ≡ join_lines (b.lines ++ ms) =
        ap (λ x. x ++ join_lines ms) (sym b.joined) ∙ sym (join_lines-append b.lines ms) in
      let q : split_lines ((bytes ++ missing_newline bytes) ++ join_lines ms) ≡ b.lines ++ ms =
        ap split_lines p
        ∙ split_lines-join_lines (b.lines ++ ms) (AllComplete-WellSplit b.lines ms b.complete w) in
      subst (λ ls. Replays c now default_snapshot ls t) (sym q) r

  line_outcome-record :
      (s : StateSnapshot) (r : StateRecord) (has_newline : Bool) {t : StateSnapshot}
      → JsonLine c r
      → apply_record s r now ≡ ok t
      → line_outcome c now true s (c.to_writer r, has_newline) ≡ advance t
  unfolding line_outcome
  line_outcome-record s r has_newline j h = rw j.reads_back (ap applied h)

  pub line_outcome-prefix :
      (s : StateSnapshot) (r : StateRecord) (k : ℕ)
      → JsonLine c r
      → 0 < k
      → k < length (c.to_writer r)
      → line_outcome c now true s (take k (c.to_writer r), false) ≡ torn
  unfolding line_outcome
  line_outcome-prefix s r k j pos lt =
      let (e, p) = j.torn_fails k pos lt in ap (decoded true s now) p

  to_writer-ne-nil : (r : StateRecord) → JsonLine c r → c.to_writer r ≢ []
  unfolding decode_line from_utf8 trim
  to_writer-ne-nil r j e = cc (j.reads_back, ap (decode_line c) e)

  pub Intact-record :
      {bytes : List ℕ} {s t : StateSnapshot} (r : StateRecord) (has_newline : Bool)
      → Base bytes s
      → JsonLine c r
      → apply_record s r now ≡ ok t
      → Intact c now
          ((bytes ++ missing_newline bytes) ++ join_lines ((c.to_writer r, has_newline) ∷ []))
          t
  Intact-record {s = s} r true b j h =
      Intact-more b ((c.to_writer r, true) ∷ []) (j.no_newline, tt)
        (Replays-snoc (c.to_writer r, true) b.replays (line_outcome-record s r true j h))
  Intact-record {s = s} r false b j h =
      Intact-more b ((c.to_writer r, false) ∷ []) (j.no_newline, to_writer-ne-nil r j, refl)
        (Replays-snoc (c.to_writer r, false) b.replays (line_outcome-record s r false j h))

  -- An intact file and one more record behind it are intact, and build what the record makes of the
  -- snapshot.
  pub Intact-appended :
      (bytes : List ℕ) {s t : StateSnapshot} (r : StateRecord)
      → Intact c now bytes s
      → JsonLine c r
      → apply_record s r now ≡ ok t
      → Intact c now (bytes ++ appended c bytes r) t
  unfolding appended
  Intact-appended bytes {t = t} r i j h =
      subst (λ x. Intact c now x t)
        (ap (λ x. (bytes ++ missing_newline bytes) ++ x)
            (append-nil (c.to_writer r ++ newline ∷ []))
          ∙ append_assoc bytes (missing_newline bytes) (c.to_writer r ++ newline ∷ []))
        (Intact-record r true (Base-of_Intact bytes i) j h)
