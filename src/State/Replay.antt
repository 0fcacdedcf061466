-- ===== src/State/Replay.antt =====
-- src/state.rs: `parse_snapshot_bytes`, which rebuilds a snapshot from the bytes of the JSONL file, and
-- the repair of an incomplete tail.
pub mod Lines
pub mod Runs
pub mod Intact
pub mod Times
use webex_headless_messenger.Common.{
  ℕ, ◌+◌, Bool, true, false, not, ◌&&◌, Option, none, some, List, [], ◌∷◌, ◌++◌, length, take, ltb,
  ◌==◌, if◌then◌else◌, Error, io, invalid_record, bad_utf8, bad_json, Result, ok, err, ◌>>=◌,
}
use webex_headless_messenger.Common.Text.{from_utf8, trim}
use webex_headless_messenger.State.{
  StateRecord, StateSnapshot, default_snapshot, apply_record, prune_expired_attempts,
}

-- serde_json on a `StateRecord`, which is not in the repository: `from_str` reads the code points of a
-- trimmed line, and `to_writer` gives the bytes of a record.
pub record Codec : Type 0 where
  pub from_str : List ℕ → Option StateRecord
  pub to_writer : StateRecord → List ℕ

-- A line's bytes without its newline, and whether it has one.
abbrev pub Line : Type 0
Line = List ℕ × Bool

abbrev pub newline : ℕ
newline = b'\n'

abbrev pub cons_byte : ℕ → List Line → List Line
cons_byte b [] = (b ∷ [], false) ∷ []
cons_byte b ((line, has_newline) ∷ rest) = (b ∷ line, has_newline) ∷ rest

-- The slices that the `while` loop takes off `bytes[offset..]`, one after another.
unfoldable pub split_lines : List ℕ → List Line
split_lines [] = []
split_lines (b ∷ bs) =
    let rest = split_lines bs in if b == newline then ([], true) ∷ rest else cons_byte b rest

-- The bytes of a line: the step of `offset`.
abbrev pub line_size : Line → ℕ
line_size (line, has_newline) = length line + (if has_newline then 1 else 0)

abbrev pub decode_text : Codec → List ℕ → Result (Option StateRecord)
decode_text c [] = ok none
decode_text c (x ∷ xs) = elim (c.from_str (x ∷ xs)) [ none ↦ err bad_json | some r ↦ ok (some r) ]

-- The record on a line, none on a blank one, or why the line is not a record.
unfoldable pub decode_line : Codec → List ℕ → Result (Option StateRecord)
decode_line c line = elim (from_utf8 line) [
  | none ↦ err bad_utf8
  | some text ↦ decode_text c (trim text)
]

-- How one round of the loop ends: the torn tail is dropped, an error is returned, or it goes on.
pub data Outcome : Type 0 where
  torn : Outcome
  failed : Error → Outcome
  advance : StateSnapshot → Outcome

abbrev pub applied : Result StateSnapshot → Outcome
applied (ok s) = advance s
applied (err e) = failed e

abbrev pub decoded : Bool → StateSnapshot → ℕ → Result (Option StateRecord) → Outcome
decoded drop s now (err e) = if drop then torn else failed e
decoded drop s now (ok none) = advance s
decoded drop s now (ok (some r)) = applied (apply_record s r now)

unfoldable pub line_outcome : Codec → ℕ → Bool → StateSnapshot → Line → Outcome
line_outcome c now allow_torn_tail s (line, has_newline) =
    decoded (allow_torn_tail && not has_newline) s now (decode_line c line)

-- The loop. Its arguments are the variables `snapshot`, `offset` and `line_number`, and the lines left;
-- `total` is `bytes.len()`.
unfoldable pub parse_loop :
    Codec → ℕ → Bool → ℕ → StateSnapshot → ℕ → ℕ → List Line → Result (StateSnapshot × ℕ)
parse_loop c now allow_torn_tail total s offset line_number [] =
    ok (prune_expired_attempts now s, total)
parse_loop c now allow_torn_tail total s offset line_number (line ∷ rest) =
    elim (line_outcome c now allow_torn_tail s line) [
      | torn ↦ ok (s, offset)
      | failed e ↦ err (invalid_record line_number e)
      | advance s' ↦
          parse_loop c now allow_torn_tail total s' (offset + line_size line) (line_number + 1) rest
    ]

unfoldable pub parse_snapshot_bytes : Codec → List ℕ → ℕ → Bool → Result (StateSnapshot × ℕ)
parse_snapshot_bytes c bytes now allow_torn_tail =
    parse_loop c now allow_torn_tail (length bytes) default_snapshot 0 1 (split_lines bytes)

-- The contents of the state file, `none` where there is no file.
-- The state file as `fs::read` finds it: not there, its bytes, or an error other than `NotFound`.
pub data Disk : Type 0 where
  missing : Disk
  file : List ℕ → Disk
  unreadable : Error → Disk

-- What `set_len` and `sync_all` of the repair do; `unsynced` is an error of `sync_all`.
pub data Truncation : Type 0 where
  truncates refuses unsynced : Truncation

-- `StateSnapshot::load_at`.
unfoldable pub load_at : Codec → Disk → ℕ → Result StateSnapshot
load_at c missing now = ok default_snapshot
load_at c (unreadable e) now = err e
load_at c (file bytes) now = do parsed ← parse_snapshot_bytes c bytes now true; ok parsed.0

abbrev pub truncate_file : Truncation → ℕ → List ℕ → Result (Unit {0}) × Disk
truncate_file truncates valid_len bytes = (ok tt, file (take valid_len bytes))
truncate_file refuses valid_len bytes = (err io, file bytes)
truncate_file unsynced valid_len bytes = (err io, file (take valid_len bytes))

-- The file is cut off where its last line is torn.
abbrev pub cut_tail : Truncation → List ℕ → Result (StateSnapshot × ℕ) → Result (Unit {0}) × Disk
cut_tail t bytes (err e) = (err e, file bytes)
cut_tail t bytes (ok parsed) =
    if ltb parsed.1 (length bytes) then truncate_file t parsed.1 bytes else (ok tt, file bytes)

-- The result of the repair and the file after it.
unfoldable pub repair_incomplete_tail : Codec → Truncation → Disk → ℕ → Result (Unit {0}) × Disk
repair_incomplete_tail c t missing now = (ok tt, missing)
repair_incomplete_tail c t (unreadable e) now = (err e, unreadable e)
repair_incomplete_tail c t (file bytes) now =
    cut_tail t bytes (parse_snapshot_bytes c bytes now true)
