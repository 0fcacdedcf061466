-- ===== src/Sidecar/Request/Chunks.antt =====
-- `read_request` of src/bin/webex-headless.rs gives the same request however the network divides it.
use mathlib.Core.List.{append-nil, append_assoc}
use webex_headless_messenger.Common.{
  ℕ, zero, suc, ◌+◌, ◌-◌, ◌≤◌, ◌<◌, ◌≡◌, ◌≢◌, ◌⊎◌, refl, sym, ap, ◌∙◌, true, Bool-cases,
  Option-cases, inl, inr, Option, none, some, List, [], ◌∷◌, ◌++◌, map, All, length, length-append,
  take, drop, take-append_le, arith, ltb, leb, cli, connection_closed, Result, ok, err,
}
use webex_headless_messenger.Sidecar.{HttpRequest}
use webex_headless_messenger.Sidecar.Lines.{from_utf8_lossy}
use webex_headless_messenger.Sidecar.Request.{
  find_bytes, blank_line, max_header_bytes, max_body_bytes, or_zero, ReadRound, again, done,
  body_round, found_round, header_round, read_round, received, after_round, read_loop, read_request,
  parse_content_length,
}
use webex_headless_messenger.Sidecar.Request.Found.{
  find_bytes_bound, find_bytes-append, find_bytes-of_append,
}

drop-append_le :
    {A : Type 0} (n : ℕ) (xs ys : List A) → n ≤ length xs → drop n (xs ++ ys) ≡ drop n xs ++ ys
drop-append_le zero xs ys h = refl
drop-append_le (suc n) [] ys h = absurd (omega arith)
drop-append_le (suc n) (x ∷ xs) ys h = drop-append_le n xs ys (omega arith)

length-drop : {A : Type 0} (n : ℕ) (xs : List A) → length (drop n xs) ≡ length xs - n
length-drop zero xs = omega arith
length-drop (suc n) [] = omega arith
length-drop (suc n) (x ∷ xs) = let rest = length-drop n xs in omega arith

-- The part of `n` bytes from the `m`th on, in front of more bytes.
slice-append :
    {A : Type 0} (m n : ℕ) (xs ys : List A)
    → m + n ≤ length xs
    → take n (drop m (xs ++ ys)) ≡ take n (drop m xs)
slice-append m n xs ys h =
    let left = length-drop m xs in
    ap (take n) (drop-append_le m xs ys (omega arith))
    ∙ take-append_le n (drop m xs) ys (omega arith)

-- The end of the headers lies within the bytes that the receiver allows for them.
abbrev pub HeadersWithin : Option ℕ → ℕ → Type 0
HeadersWithin none total = total ≤ max_header_bytes
HeadersWithin (some header_end) total = header_end + 4 ≤ max_header_bytes

abbrev pub FitsHeaders : List ℕ → Type 0
FitsHeaders bytes = HeadersWithin (find_bytes bytes blank_line) (length bytes)

body_round-append :
    (bytes more : List ℕ) (i n : ℕ) (r : Result HttpRequest)
    → i + 4 ≤ length bytes
    → body_round bytes i n ≡ done r
    → body_round (bytes ++ more) i n ≡ done r
body_round-append bytes more i n r fits h = elim (Bool-cases (ltb max_body_bytes n)) [
  | inl large ↦ rw large (rw large at h)
  | inr small ↦ elim (Bool-cases (leb (i + 4 + n) (length bytes))) [
    | inl whole ↦
        (let enough : i + 4 + n ≤ length bytes = ground arith in
          let total = length-append bytes more in
          let longer : leb (i + 4 + n) (length (bytes ++ more)) ≡ true = ground arith in
          rw
            (
              small,
              longer,
              take-append_le i bytes more (omega arith),
              slice-append (i + 4) n bytes more enough,
            )
            (rw (small, whole) at h))
    | inr part ↦ cc (rw (small, part) at h)
  ]
]

header_round-append :
    (bytes more : List ℕ) (i : ℕ) (stated : Result (Option ℕ)) (r : Result HttpRequest)
    → i + 4 ≤ length bytes
    → header_round bytes i stated ≡ done r
    → header_round (bytes ++ more) i stated ≡ done r
header_round-append bytes more i (err e) r fits h = h
header_round-append bytes more i (ok stated) r fits h =
    body_round-append bytes more i (or_zero stated) r fits h

none_round :
    (bytes : List ℕ) (r : Result HttpRequest)
    → found_round bytes none ≡ done r
    → max_header_bytes < length bytes
none_round bytes r h = ground arith

-- Headers within their bound end before there are too many bytes.
not_too_long :
    (bytes more : List ℕ)
    → find_bytes bytes blank_line ≡ none
    → max_header_bytes < length bytes
    → ¬ FitsHeaders (bytes ++ more)
not_too_long bytes more h long fits =
    let total = length-append bytes more in
    elim (Option-cases (find_bytes (bytes ++ more) blank_line)) [
      | inl e ↦
          (let within : length (bytes ++ more) ≤ max_header_bytes = rw e at fits in omega arith)
      | inr (i, e) ↦
          (let within : i + 4 ≤ max_header_bytes = rw e at fits in
            let found =
              find_bytes-of_append bytes more blank_line i e (omega arith) (omega arith) in
            cc)
    ]

-- A round that ends the loop ends it the same way when more bytes have come.
read_round-append :
    (bytes more : List ℕ) (r : Result HttpRequest)
    → FitsHeaders (bytes ++ more)
    → read_round bytes ≡ done r
    → read_round (bytes ++ more) ≡ done r
unfolding read_round
read_round-append bytes more r fits h = elim (Option-cases (find_bytes bytes blank_line)) [
  | inl none_yet ↦
      (let at_none : found_round bytes none ≡ done r = sym (ap (found_round bytes) none_yet) ∙ h in
        absurd (not_too_long bytes more none_yet (none_round bytes r at_none) fits))
  | inr (i, found) ↦
      (let within = find_bytes_bound bytes blank_line i found in
        let same = take-append_le i bytes more (omega arith) in
        ap (found_round (bytes ++ more)) (find_bytes-append bytes more blank_line i found)
        ∙ header_round-append bytes more i
            (parse_content_length (from_utf8_lossy (take i (bytes ++ more)))) r within
            (rw same (sym (ap (found_round bytes) found) ∙ h)))
]

-- What the bytes of a whole stream come to.
abbrev pub outcome : ReadRound → Result HttpRequest
outcome again = err (cli connection_closed)
outcome (done r) = r

abbrev pub flat : List (List ℕ) → List ℕ
flat [] = []
flat (chunk ∷ chunks) = chunk ++ flat chunks

ReadRound-cases :
    (r : ReadRound) → (r ≡ again) ⊎ ((result : Result HttpRequest) × (r ≡ done result))
ReadRound-cases again = inl refl
ReadRound-cases (done result) = inr (result, refl)

read_loop_chunks :
    (bytes : List ℕ) (chunks : List (List ℕ))
    → read_round bytes ≡ again
    → FitsHeaders (bytes ++ flat chunks)
    → All (λ chunk. chunk ≢ []) chunks
    → read_loop bytes (map received chunks) ≡ outcome (read_round (bytes ++ flat chunks))
unfolding read_loop
read_loop_chunks bytes [] h fits full = rw (append-nil bytes, h) refl
read_loop_chunks bytes ([] ∷ chunks) h fits full = absurd (full.0 refl)
read_loop_chunks bytes ((b ∷ chunk) ∷ chunks) h fits full =
    let joined = append_assoc bytes (b ∷ chunk) (flat chunks) in
    let fits' : FitsHeaders ((bytes ++ b ∷ chunk) ++ flat chunks) = rw joined fits in
    let rest = read_loop (bytes ++ b ∷ chunk) (map received chunks) in
    elim (ReadRound-cases (read_round (bytes ++ b ∷ chunk))) [
      | inl e ↦
          ap (λ r. after_round r rest) e
          ∙ read_loop_chunks (bytes ++ b ∷ chunk) chunks e fits' full.1
          ∙ ap (λ bs. outcome (read_round bs)) joined
      | inr (r, e) ↦
          ap (λ r. after_round r rest) e
          ∙ sym (ap outcome (read_round-append (bytes ++ b ∷ chunk) (flat chunks) r fits' e))
          ∙ ap (λ bs. outcome (read_round bs)) joined
    ]

round_nil : read_round [] ≡ again
unfolding read_round find_bytes
round_nil = refl

-- A request whose headers end within the allowed 16 KiB is read the same way however the network divides its
-- bytes: from any division into reads that are not empty `read_request` returns what a single read of all
-- bytes gives it, the request, an error of its headers or its size, or that the stream ended too soon.
pub read_request-chunks :
    (chunks : List (List ℕ))
    → All (λ chunk. chunk ≢ []) chunks
    → FitsHeaders (flat chunks)
    → flat chunks ≢ []
    → read_request (map received chunks) ≡ read_request (received (flat chunks) ∷ [])
unfolding read_request
read_request-chunks chunks full fits some_bytes =
    read_loop_chunks [] chunks round_nil fits full
    ∙ ap (λ bytes. outcome (read_round bytes)) (sym (append-nil (flat chunks)))
    ∙ sym (
        read_loop_chunks [] (flat chunks ∷ []) round_nil (rw (append-nil (flat chunks)) fits)
          (some_bytes, tt))
