-- ===== src/State/Replay/Lines.antt =====
-- How the bytes of the state file and its lines determine one another.
use mathlib.Core.Path.{subst}
use mathlib.Core.List.{append_assoc, append-nil}
use webex_headless_messenger.Common.{
  ℕ, ◌+◌, ◌<◌, ◌≡◌, ◌≢◌, refl, sym, ap, ◌∙◌, inl, inr, true, false, List, [], ◌∷◌, ◌++◌, length,
  length-append, take, All, take-append_length, arith, ◌==◌, ==_iff, Bool-cases, if◌then◌else◌,
}
use webex_headless_messenger.State.Replay.{Line, newline, cons_byte, split_lines, line_size}

-- The bytes of one line and of a list of lines.
abbrev pub line_bytes : Line → List ℕ
line_bytes (line, has_newline) = line ++ (if has_newline then newline ∷ [] else [])

abbrev pub join_lines : List Line → List ℕ
join_lines [] = []
join_lines (line ∷ rest) = line_bytes line ++ join_lines rest

abbrev pub total_size : List Line → ℕ
total_size [] = 0
total_size (line ∷ rest) = line_size line + total_size rest

abbrev pub NoNewline : List ℕ → Type 0
NoNewline = All (λ b. b ≢ newline)

-- Every line is complete.
abbrev pub AllComplete : List Line → Type 0
AllComplete = All (λ (line : Line). NoNewline line.0 × (line.1 ≡ true))

-- Lines as `split_lines` gives them: only the last may lack its newline, and then it is not empty.
abbrev pub WellSplit : List Line → Type 0
WellSplit [] = Unit
WellSplit ((line, true) ∷ rest) = NoNewline line × WellSplit rest
WellSplit ((line, false) ∷ rest) = NoNewline line × (line ≢ []) × (rest ≡ [])

append_cons-ne-nil : (ls : List Line) (line : Line) → ¬ (ls ++ line ∷ [] ≡ [])
append_cons-ne-nil [] line h = cc
append_cons-ne-nil (x ∷ ls) line h = cc

pub WellSplit-tail : (line : Line) (rest : List Line) → WellSplit (line ∷ rest) → WellSplit rest
WellSplit-tail (l, true) rest w = w.1
WellSplit-tail (l, false) rest w = subst WellSplit (sym w.2) tt

cons_byte-WellSplit :
    (b : ℕ) (ls : List Line) → b ≢ newline → WellSplit ls → WellSplit (cons_byte b ls)
cons_byte-WellSplit b [] h w = ((h, tt), (λ e. cc), refl)
cons_byte-WellSplit b ((line, true) ∷ rest) h w = ((h, w.0), w.1)
cons_byte-WellSplit b ((line, false) ∷ rest) h w = ((h, w.0), (λ e. cc), w.2)

ne_newline : (b : ℕ) → (b == newline) ≡ false → b ≢ newline
ne_newline b h e = ground arith

pub split_lines-WellSplit : (bs : List ℕ) → WellSplit (split_lines bs)
unfolding split_lines
split_lines-WellSplit [] = tt
split_lines-WellSplit (b ∷ bs) = elim (Bool-cases (b == newline)) [
  | inl e ↦ rw e (tt, split_lines-WellSplit bs)
  | inr e ↦
      rw e (cons_byte-WellSplit b (split_lines bs) (ne_newline b e) (split_lines-WellSplit bs))
]

join_lines-cons_byte : (b : ℕ) (ls : List Line) → join_lines (cons_byte b ls) ≡ b ∷ join_lines ls
join_lines-cons_byte b [] = refl
join_lines-cons_byte b ((line, n) ∷ rest) = refl

-- No byte is lost: the lines together are the file.
pub join_lines-split_lines : (bs : List ℕ) → join_lines (split_lines bs) ≡ bs
unfolding split_lines
join_lines-split_lines [] = refl
join_lines-split_lines (b ∷ bs) = elim (Bool-cases (b == newline)) [
  | inl e ↦ rw e (rw (join_lines-split_lines bs) (ap (λ x. x ∷ bs) (sym ((==_iff b newline).0 e))))
  | inr e ↦ rw e (join_lines-cons_byte b (split_lines bs) ∙ ap (◌∷◌ b) (join_lines-split_lines bs))
]

split_lines_complete :
    (line : List ℕ) (bs : List ℕ)
    → NoNewline line
    → split_lines (line ++ newline ∷ bs) ≡ (line, true) ∷ split_lines bs
unfolding split_lines
split_lines_complete [] bs h = refl
split_lines_complete (b ∷ line) bs h =
    let e : (b == newline) ≡ false = ground arith in rw e (rw (split_lines_complete line bs h.1))

split_lines-last :
    (line : List ℕ) → NoNewline line → line ≢ [] → split_lines line ≡ (line, false) ∷ []
unfolding split_lines
split_lines-last [] h n = absurd (n refl)
split_lines-last (b ∷ []) h n = ground arith
split_lines-last (b ∷ c ∷ line) h n =
    let e : (b == newline) ≡ false = ground arith in
    rw e (rw (split_lines-last (c ∷ line) h.1 (λ p. cc)))

-- Splitting gives back the lines that were joined.
pub split_lines-join_lines : (ls : List Line) → WellSplit ls → split_lines (join_lines ls) ≡ ls
split_lines-join_lines [] w = unfold split_lines in refl
split_lines-join_lines ((line, true) ∷ rest) w = rw append_assoc (
    split_lines_complete line (join_lines rest) w.0
    ∙ ap (◌∷◌ (line, true)) (split_lines-join_lines rest w.1))
split_lines-join_lines ((line, false) ∷ rest) w =
    rw (w.2, append-nil, append-nil) (split_lines-last line w.0 w.1)

length-line_bytes : (line : Line) → length (line_bytes line) ≡ line_size line
length-line_bytes (line, true) = length-append line (newline ∷ [])
length-line_bytes (line, false) = length-append line []

pub length-join_lines : (ls : List Line) → length (join_lines ls) ≡ total_size ls
length-join_lines [] = refl
length-join_lines (line ∷ rest) = omega (
  arith,
  length-append (line_bytes line) (join_lines rest),
  length-line_bytes line,
  length-join_lines rest,
)

pub AllComplete-WellSplit :
    (ls ms : List Line) → AllComplete ls → WellSplit ms → WellSplit (ls ++ ms)
AllComplete-WellSplit [] ms c w = w
AllComplete-WellSplit ((line, true) ∷ rest) ms c w = (c.0.0, AllComplete-WellSplit rest ms c.1 w)
AllComplete-WellSplit ((line, false) ∷ rest) ms c w = cc c.0.1

pub join_lines-append : (ls ms : List Line) → join_lines (ls ++ ms) ≡ join_lines ls ++ join_lines ms
join_lines-append [] ms = refl
join_lines-append (line ∷ rest) ms =
    rw (join_lines-append rest ms) (sym (append_assoc (line_bytes line) (join_lines rest) _))

-- The first lines are the first bytes.
pub take-join_lines :
    (ls ms : List Line) → take (total_size ls) (join_lines (ls ++ ms)) ≡ join_lines ls
take-join_lines ls ms =
    rw (join_lines-append ls ms, ← length-join_lines ls)
      (take-append_length (join_lines ls) (join_lines ms))

pub total_size-snoc :
    (ls : List Line) (tail : List ℕ)
    → total_size (ls ++ (tail, false) ∷ []) ≡ total_size ls + length tail
total_size-snoc [] tail = omega arith
total_size-snoc (line ∷ rest) tail = omega (arith, total_size-snoc rest tail)

pub length-pos : (bs : List ℕ) → bs ≢ [] → 0 < length bs
length-pos [] h = absurd (h refl)
length-pos (b ∷ bs) h = omega arith

-- Lines that stand before an incomplete one are complete.
pub WellSplit-init :
    (ls : List Line) (tail : List ℕ)
    → WellSplit (ls ++ (tail, false) ∷ [])
    → WellSplit ls × (tail ≢ [])
WellSplit-init [] tail w = (tt, w.1)
WellSplit-init ((line, true) ∷ rest) tail w =
    let (v, n) = WellSplit-init rest tail w.1 in ((w.0, v), n)
WellSplit-init ((line, false) ∷ rest) tail w = absurd (append_cons-ne-nil rest (tail, false) w.2)
