-- ===== src/Sidecar/Request.antt =====
-- src/bin/webex-headless.rs: `read_request`, with `find_bytes`, `parse_content_length` and `parse_request`.
pub mod Found
pub mod Chunks
pub mod Buffer
use webex_headless_messenger.Common.{
  ℕ, zero, suc, ◌+◌, ◌-◌, ◌*◌, ◌^◌, Bool, true, false, Option, none, some, List, [], ◌∷◌, ◌++◌,
  length, take, drop, leb, ltb, ◌==◌, if◌then◌else◌, Error, cli, io, connection_closed,
  body_too_large, headers_too_large, no_request_line, no_method, no_path, bad_content_length,
  Result, ok, err, ◌>>=◌,
}
use webex_headless_messenger.Common.Text.{codes, trim}
use webex_headless_messenger.Cli.Numbers.{Parsed, number, bad, parse_unsigned}
use webex_headless_messenger.Sidecar.{Text, HttpRequest}
use webex_headless_messenger.Sidecar.Lines.{
  from_utf8_lossy, lines, split_whitespace, to_ascii_lowercase, split_once_colon, text_eq,
}

abbrev pub max_body_bytes : ℕ
max_body_bytes = 1024 * 1024

abbrev pub max_header_bytes : ℕ
max_header_bytes = 16 * 1024

-- `window == needle`, of the window at the start.
unfoldable pub window_eq : List ℕ → List ℕ → Bool
window_eq bytes [] = true
window_eq [] (n ∷ needle) = false
window_eq (b ∷ bytes) (n ∷ needle) =
    let rest = window_eq bytes needle in if b == n then rest else false

abbrev pub one_later : Option ℕ → Option ℕ
one_later none = none
one_later (some i) = some (suc i)

unfoldable pub find_bytes : List ℕ → List ℕ → Option ℕ
unfolding window_eq
find_bytes [] needle = none
find_bytes (b ∷ bytes) needle =
    let rest = find_bytes bytes needle in
    if window_eq (b ∷ bytes) needle then some 0 else one_later rest

-- "\r\n\r\n".
abbrev pub blank_line : List ℕ
blank_line = 13 ∷ 10 ∷ 13 ∷ 10 ∷ []

abbrev as_length : Parsed → Result (Option ℕ)
as_length (number n) = ok (some n)
as_length (bad e) = err (cli bad_content_length)

-- The first header of that name decides.
unfoldable pub find_content_length : List Text → Result (Option ℕ)
find_content_length [] = ok none
find_content_length (line ∷ rest) =
    let later = find_content_length rest in
    elim (split_once_colon line) [
      | none ↦ later
      | some (name, value) ↦
          if text_eq (to_ascii_lowercase name) (codes "content-length")
          then as_length (parse_unsigned (2 ^ 64 - 1) (trim value))
          else later
    ]

unfoldable pub parse_content_length : Text → Result (Option ℕ)
unfolding find_content_length
parse_content_length headers = find_content_length (lines headers)

-- `BTreeMap::insert` and `get`: a name that is there already gets the new value.
unfoldable pub insert_header : Text → Text → List (Text × Text) → List (Text × Text)
insert_header name value [] = (name, value) ∷ []
insert_header name value ((n, v) ∷ headers) =
    let rest = insert_header name value headers in
    if text_eq n name then (name, value) ∷ headers else (n, v) ∷ rest

unfoldable pub get_header : Text → List (Text × Text) → Option Text
get_header name [] = none
get_header name ((n, v) ∷ headers) =
    let rest = get_header name headers in if text_eq n name then some v else rest

-- The `filter_map` and the `collect`, into the headers so far.
unfoldable pub collect_headers : List (Text × Text) → List Text → List (Text × Text)
unfolding insert_header
collect_headers headers [] = headers
collect_headers headers (line ∷ rest) = elim (split_once_colon line) [
  | none ↦ collect_headers headers rest
  | some (name, value) ↦
      collect_headers (insert_header (to_ascii_lowercase name) (trim value) headers) rest
]

abbrev pub with_parts : List Text → List ℕ → List Text → Result HttpRequest
with_parts header_lines body [] = err (cli no_method)
with_parts header_lines body (method ∷ []) = err (cli no_path)
with_parts header_lines body (method ∷ path ∷ parts) = ok (record {
  method = method;
  path = path;
  headers = collect_headers [] header_lines;
  body = body;
})

abbrev pub with_lines : List ℕ → List Text → Result HttpRequest
with_lines body [] = err (cli no_request_line)
with_lines body (request_line ∷ header_lines) =
    with_parts header_lines body (split_whitespace request_line)

unfoldable pub parse_request : List ℕ → List ℕ → Result HttpRequest
parse_request headers body = with_lines body (lines (from_utf8_lossy headers))

-- `unwrap_or(0)`.
abbrev pub or_zero : Option ℕ → ℕ
or_zero none = 0
or_zero (some n) = n

-- What a round of the loop comes to.
pub data ReadRound : Type 0 where
  again : ReadRound
  done : Result HttpRequest → ReadRound

abbrev pub body_round : List ℕ → ℕ → ℕ → ReadRound
body_round bytes header_end content_length =
    if ltb max_body_bytes content_length
    then done (err (cli body_too_large))
    else if leb (header_end + 4 + content_length) (length bytes)
    then done
        (parse_request (take header_end bytes) (take content_length (drop (header_end + 4) bytes)))
    else again

abbrev pub header_round : List ℕ → ℕ → Result (Option ℕ) → ReadRound
header_round bytes header_end (err e) = done (err e)
header_round bytes header_end (ok stated) = body_round bytes header_end (or_zero stated)

abbrev pub found_round : List ℕ → Option ℕ → ReadRound
found_round bytes (some header_end) =
    header_round bytes header_end (parse_content_length (from_utf8_lossy (take header_end bytes)))
found_round bytes none =
    if ltb max_header_bytes (length bytes) then done (err (cli headers_too_large)) else again

-- The round, once the bytes that are read stand behind the others.
unfoldable pub read_round : List ℕ → ReadRound
read_round bytes = found_round bytes (find_bytes bytes blank_line)

-- What `stream.read` returns: bytes, none of them at the end of the stream, or an error.
pub data Read : Type 0 where
  received : List ℕ → Read
  broken : Read

abbrev pub after_round : ReadRound → Result HttpRequest → Result HttpRequest
after_round again rest = rest
after_round (done result) rest = result

-- The loop over the reads; a stream that gives no more is at its end.
unfoldable pub read_loop : List ℕ → List Read → Result HttpRequest
read_loop bytes [] = err (cli connection_closed)
read_loop bytes (broken ∷ reads) = err io
read_loop bytes (received [] ∷ reads) = err (cli connection_closed)
read_loop bytes (received (b ∷ chunk) ∷ reads) =
    after_round (read_round (bytes ++ b ∷ chunk)) (read_loop (bytes ++ b ∷ chunk) reads)

unfoldable pub read_request : List Read → Result HttpRequest
unfolding read_loop
read_request reads = read_loop [] reads
