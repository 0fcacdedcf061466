-- ===== src/State/Store/Torn.antt =====
-- An append that breaks off after any number of bytes.
use mathlib.Core.Path.{subst}
use mathlib.Core.List.{append_assoc, append-nil}
use webex_headless_messenger.Common.{
  ℕ, zero, suc, ◌+◌, ◌<◌, ◌≡◌, ◌≢◌, refl, sym, ap, ◌∙◌, ◌⊎◌, inl, inr, Bool, true, false, List, [],
  ◌∷◌, ◌++◌, length, length-append, take, take-of_le, take-append_le, All-take, arith, ◌==◌, ok,
  Bool-cases, ltb, ltb→lt,
}
use webex_headless_messenger.State.{StateRecord, StateSnapshot, default_snapshot, apply_record}
use webex_headless_messenger.State.Replay.{
  Codec, file, newline, split_lines, torn, line_outcome, load_at, parse_snapshot_bytes, parse_loop,
}
use webex_headless_messenger.State.Replay.Lines.{
  NoNewline, AllComplete-WellSplit, join_lines, join_lines-append, total_size,
  split_lines-join_lines,
}
use webex_headless_messenger.State.Replay.Runs.{Replays, parse_loop-append, parse_loop-torn}
use webex_headless_messenger.State.Replay.Intact.{Intact, load_at-Intact}
use webex_headless_messenger.State.Store.{missing_newline, appended}
use webex_headless_messenger.State.Store.Append.{
  JsonLine, Base, Base-of_Intact, Intact-more, Intact-record, line_outcome-prefix,
}

missing_newline-cases :
    (bs : List ℕ) → (missing_newline bs ≡ []) ⊎ (missing_newline bs ≡ newline ∷ [])
unfolding missing_newline
missing_newline-cases [] = inl refl
missing_newline-cases (b ∷ []) = elim (Bool-cases (b == newline)) [
  | inl e ↦ inl (rw e)
  | inr e ↦ inr (rw e)
]
missing_newline-cases (b ∷ c ∷ bs) = missing_newline-cases (c ∷ bs)

take-ne-nil : (k : ℕ) (xs : List ℕ) → 0 < k → k < length xs → take k xs ≢ []
take-ne-nil zero xs h l e = absurd (omega arith)
take-ne-nil (suc k) [] h l e = absurd (omega arith)
take-ne-nil (suc k) (x ∷ xs) h l e = cc

module _ (c : Codec) (now : ℕ) where
  -- The load drops a torn last line.
  load_at-torn :
      {bytes : List ℕ} {s : StateSnapshot} (b : Base c now bytes s) (tail : List ℕ)
      → NoNewline tail
      → tail ≢ []
      → line_outcome c now true s (tail, false) ≡ torn
      → load_at c (file ((bytes ++ missing_newline bytes) ++ join_lines ((tail, false) ∷ []))) now
        ≡ ok s
  unfolding load_at parse_snapshot_bytes
  load_at-torn {bytes} {s} b tail h n e =
      let torn_file = (bytes ++ missing_newline bytes) ++ join_lines ((tail, false) ∷ []) in
      let q : split_lines torn_file ≡ b.lines ++ (tail, false) ∷ [] =
        ap split_lines (
          ap (λ x. x ++ join_lines ((tail, false) ∷ [])) (sym b.joined)
          ∙ sym (join_lines-append b.lines ((tail, false) ∷ [])))
        ∙ split_lines-join_lines (b.lines ++ (tail, false) ∷ [])
            (AllComplete-WellSplit b.lines ((tail, false) ∷ []) b.complete (h, n, refl)) in
      let p : parse_loop c now true (length torn_file) default_snapshot 0 1 (split_lines torn_file)
          ≡ ok (s, 0 + total_size b.lines) =
        ap (parse_loop c now true (length torn_file) default_snapshot 0 1) q
        ∙ parse_loop-append (length torn_file) 0 1 ((tail, false) ∷ []) b.replays
        ∙ parse_loop-torn c now s (length torn_file) (0 + total_size b.lines) (1 + length b.lines)
            (tail, false) [] e in
      rw p

  -- The file loads to one snapshot or to the other.
  abbrev pub LoadsEither : List ℕ → StateSnapshot → StateSnapshot → Type 0
  LoadsEither bytes s t = (load_at c (file bytes) now ≡ ok s) ⊎ (load_at c (file bytes) now ≡ ok t)

  module _ {bytes : List ℕ} {s t : StateSnapshot} (r : StateRecord) (b : Base c now bytes s)
      (j : JsonLine c r) (h : apply_record s r now ≡ ok t) where
    -- A proper beginning of the record's text.
    loads-prefix :
        (k : ℕ)
        → k < length (c.to_writer r)
        → load_at c (file ((bytes ++ missing_newline bytes) ++ take k (c.to_writer r))) now ≡ ok s
    loads-prefix zero lt = load_at-Intact c now ((bytes ++ missing_newline bytes) ++ []) (
        Intact-more c now b [] tt
          (subst (λ ls. Replays c now default_snapshot ls s) (sym (append-nil b.lines)) b.replays))
    loads-prefix (suc k) lt =
        subst (λ x. load_at c (file ((bytes ++ missing_newline bytes) ++ x)) now ≡ ok s)
          (append-nil (take (suc k) (c.to_writer r) ++ [])
            ∙ append-nil (take (suc k) (c.to_writer r)))
          (load_at-torn b (take (suc k) (c.to_writer r))
            (All-take (λ x. x ≢ newline) (suc k) (c.to_writer r) j.no_newline)
            (take-ne-nil (suc k) (c.to_writer r) (omega arith) lt)
            (line_outcome-prefix c now s r (suc k) j (omega arith) lt))

    loads-record :
        (more : List ℕ) (has_newline : Bool)
        → join_lines ((c.to_writer r, has_newline) ∷ []) ≡ more
        → load_at c (file ((bytes ++ missing_newline bytes) ++ more)) now ≡ ok t
    loads-record more has_newline e =
        subst (λ x. load_at c (file ((bytes ++ missing_newline bytes) ++ x)) now ≡ ok t) e
          (load_at-Intact c now _ (Intact-record c now r has_newline b j h))

    loads-take :
        (k : ℕ)
        → LoadsEither
            ((bytes ++ missing_newline bytes) ++ take k (c.to_writer r ++ newline ∷ []))
            s
            t
    loads-take k = elim (Bool-cases (ltb k (length (c.to_writer r)))) [
      | inl e ↦ inl (
          subst (λ x. load_at c (file ((bytes ++ missing_newline bytes) ++ x)) now ≡ ok s)
            (sym (take-append_le k (c.to_writer r) (newline ∷ []) (ground arith)))
            (loads-prefix k (ltb→lt _ _ e)))
      | inr e ↦ elim (Bool-cases (k == length (c.to_writer r))) [
        | inl f ↦ inr (
            loads-record _ false (
              append-nil (c.to_writer r ++ [])
              ∙ append-nil (c.to_writer r)
              ∙ sym (
                  take-append_le k (c.to_writer r) (newline ∷ []) (ground arith)
                  ∙ take-of_le k (c.to_writer r) (ground arith))))
        | inr f ↦ inr (
            loads-record _ true (
              append-nil (c.to_writer r ++ newline ∷ [])
              ∙ sym (
                  take-of_le k (c.to_writer r ++ newline ∷ [])
                    (ground (arith, length-append (c.to_writer r) (newline ∷ []))))))
      ]
    ]

    loads-cut :
        (k : ℕ) (m : List ℕ)
        → missing_newline bytes ≡ m
        → (m ≡ []) ⊎ (m ≡ newline ∷ [])
        → Intact c now bytes s
        → LoadsEither (bytes ++ take k (m ++ (c.to_writer r ++ newline ∷ []))) s t
    loads-cut k m e (inl p) i =
        subst (λ x. LoadsEither (bytes ++ take k (x ++ (c.to_writer r ++ newline ∷ []))) s t)
          (sym p)
          (subst (λ x. LoadsEither (x ++ take k (c.to_writer r ++ newline ∷ [])) s t)
            (ap (λ x. bytes ++ x) (e ∙ p) ∙ append-nil bytes) (loads-take k))
    loads-cut zero m e (inr p) i = inl (
        subst (λ x. load_at c (file x) now ≡ ok s) (sym (append-nil bytes))
          (load_at-Intact c now bytes i))
    loads-cut (suc k) m e (inr p) i =
        subst (λ x. LoadsEither (bytes ++ take (suc k) (x ++ (c.to_writer r ++ newline ∷ []))) s t)
          (sym p)
          (subst (λ x. LoadsEither x s t)
            (ap (λ x. (bytes ++ x) ++ take k (c.to_writer r ++ newline ∷ [])) (e ∙ p)
              ∙ append_assoc bytes (newline ∷ []) (take k (c.to_writer r ++ newline ∷ [])))
            (loads-take k))

  -- The log is atomic under a crash. Let a file be intact with the snapshot `s`, let serde_json write the
  -- record `r` as one line, and let `r` take `s` to `t`. If an append of `r` stops after any number `k`
  -- of the bytes that it writes, the file that is left loads to `s` or to `t`.
  pub append_atomic :
      (bytes : List ℕ) {s t : StateSnapshot} (r : StateRecord) (k : ℕ)
      → Intact c now bytes s
      → JsonLine c r
      → apply_record s r now ≡ ok t
      → LoadsEither (bytes ++ take k (appended c bytes r)) s t
  unfolding appended
  append_atomic bytes r k i j h =
      loads-cut r (Base-of_Intact c now bytes i) j h k (missing_newline bytes) refl
        (missing_newline-cases bytes) i
