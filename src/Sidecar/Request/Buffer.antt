-- ===== src/Sidecar/Request/Buffer.antt =====
-- How much `read_request` of src/bin/webex-headless.rs keeps of a request.
use webex_headless_messenger.Common.{
  ℕ, ◌+◌, ◌*◌, ◌≤◌, ◌<◌, ◌≡◌, sym, ap, ◌∙◌, Option, none, some, Option-cases, Bool-cases, inl, inr,
  Result, ok, err, List, [], ◌++◌, length, length-append, take, arith, ltb, leb,
}
use webex_headless_messenger.Sidecar.Lines.{from_utf8_lossy}
use webex_headless_messenger.Sidecar.Request.{
  find_bytes, blank_line, max_header_bytes, max_body_bytes, or_zero, again, body_round,
  header_round, found_round, read_round, parse_content_length,
}
use webex_headless_messenger.Sidecar.Request.Found.{find_bytes_bound, find_bytes-append}

-- The buffer of `stream.read`.
abbrev pub read_bytes : ℕ
read_bytes = 2048

-- The bytes that the loop can hold: none at first, and after a round that asks for more, those and a read.
pub data Buffered : List ℕ → Type 0 where
  fresh : Buffered []
  more :
      (bytes chunk : List ℕ)
      → Buffered bytes
      → read_round bytes ≡ again
      → length chunk ≤ read_bytes
      → Buffered (bytes ++ chunk)

none_again : (bytes : List ℕ) → found_round bytes none ≡ again → length bytes ≤ max_header_bytes
none_again bytes h = ground arith

body_again :
    (bytes : List ℕ) (i n : ℕ)
    → body_round bytes i n ≡ again
    → length bytes < i + 4 + max_body_bytes
body_again bytes i n h = elim (Bool-cases (ltb max_body_bytes n)) [
  | inl large ↦ cc (rw large at h)
  | inr small ↦ elim (Bool-cases (leb (i + 4 + n) (length bytes))) [
    | inl whole ↦ cc (rw (small, whole) at h)
    | inr part ↦ ground arith
  ]
]

header_again :
    (bytes : List ℕ) (i : ℕ) (stated : Result (Option ℕ))
    → header_round bytes i stated ≡ again
    → length bytes < i + 4 + max_body_bytes
header_again bytes i (err e) h = cc
header_again bytes i (ok stated) h = body_again bytes i (or_zero stated) h

-- The headers of the bytes that the loop holds end early.
early_headers :
    (bytes : List ℕ) (i : ℕ)
    → Buffered bytes
    → find_bytes bytes blank_line ≡ some i
    → i + 4 ≤ max_header_bytes + read_bytes
unfolding read_round
early_headers bytes i fresh h = let fits = find_bytes_bound [] blank_line i h in omega arith
early_headers bytes i (more before chunk b again_before small) h =
    let total = length-append before chunk in
    elim (Option-cases (find_bytes before blank_line)) [
      | inl e ↦
          (let short = none_again before (sym (ap (found_round before) e) ∙ again_before) in
            let fits = find_bytes_bound (before ++ chunk) blank_line i h in omega arith)
      | inr (j, e) ↦
          (let there = find_bytes-append before chunk blank_line j e in
            let same : i ≡ j = cc in let early = early_headers before j b e in omega arith)
    ]

-- Whatever a client sends, and however it divides it into reads of at most 2 KiB, the receiver never holds
-- more than 1 MiB, 16 KiB and two reads of its request.
pub read_request-Buffered :
    (bytes : List ℕ)
    → Buffered bytes
    → length bytes ≤ max_body_bytes + max_header_bytes + 2 * read_bytes
unfolding read_round
read_request-Buffered bytes fresh = omega arith
read_request-Buffered bytes (more before chunk b again_before small) =
    let total = length-append before chunk in
    elim (Option-cases (find_bytes before blank_line)) [
      | inl e ↦
          (let short = none_again before (sym (ap (found_round before) e) ∙ again_before) in
            omega arith)
      | inr (j, e) ↦
          (let early = early_headers before j b e in
            let open_body =
              header_again before j (parse_content_length (from_utf8_lossy (take j before)))
                (sym (ap (found_round before) e) ∙ again_before) in
            omega arith)
    ]
