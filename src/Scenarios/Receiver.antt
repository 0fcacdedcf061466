-- ===== src/Scenarios/Receiver.antt =====
-- Requests to the receiver of events.
use webex_headless_messenger.Common.{
  ℕ, Option, ◌≤◌, ◌<◌, ◌≡◌, ◌≢◌, ◌↔◌, refl, true, false, some, none, List, [], ◌∷◌, ◌++◌, ◌+◌, ◌*◌,
  map, length, All, ok, arith,
}
use webex_headless_messenger.Common.Text.{codes, trim, trim_start, utf8_byte}
use webex_headless_messenger.Cli.{SidecarReceiveArgs}
use webex_headless_messenger.Cli.Numbers.{parse_unsigned, parse_digits}
use webex_headless_messenger.Cli.Polling.{default_sidecar}
use webex_headless_messenger.Sidecar.{HttpRequest, Text}
use webex_headless_messenger.Sidecar.Lines.{
  from_utf8_lossy, lossy_loop, lines, split_blank, split_whitespace, lower, to_ascii_lowercase,
  split_once_colon, text_eq,
}
use webex_headless_messenger.Sidecar.Request.{
  window_eq, find_bytes, find_content_length, parse_content_length, insert_header, get_header,
  collect_headers, parse_request, read_round, read_loop, read_request, received, max_body_bytes,
  max_header_bytes,
}
use webex_headless_messenger.Sidecar.Request.Chunks.{read_request-chunks, flat}
use webex_headless_messenger.Sidecar.Request.Buffer.{read_request-Buffered, fresh, more}
use webex_headless_messenger.Sidecar.Handler.{handle_sidecar_request, is_authorized}
use webex_headless_messenger.Sidecar.Handler.Access.{IsDelivery, handle_sidecar_request-IsDelivery}
use webex_headless_messenger.Sidecar.Handler.{handle_sidecar_connection, connection_result}
use webex_headless_messenger.Sidecar.Receiver.{
  Happening, connects, ends, sidecar_receive, validate_loopback_bind, expected_token,
  accept_sidecar_connections, receive_loop,
}
use webex_headless_messenger.Sidecar.Receiver.Printed.{sidecar_receive-WasDelivered, WasDelivered}

-- A request with a body of two bytes, in two parts that divide the end of its headers.
abbrev first_part : List ℕ
first_part =
    codes "POST /webex/events HTTP/1.1\r\nAuthorization: Bearer secret\r\nContent-Length: 2\r\n\r"

abbrev second_part : List ℕ
second_part = codes "\n{}"

abbrev posted : HttpRequest
posted = record {
  method = codes "POST";
  path = codes "/webex/events";
  headers =
      (codes "authorization", codes "Bearer secret") ∷ (codes "content-length", codes "2") ∷ [];
  body = codes "{}";
}

-- A body is an event where it is a pair of braces.
abbrev braces : List ℕ → Option ℕ
braces body = elim (text_eq body (codes "{}")) [ true ↦ some 0 | false ↦ none ]

read_posted : read_request (map received (first_part ∷ second_part ∷ [])) ≡ ok posted
unfolding read_request read_loop read_round find_bytes window_eq parse_content_length
    find_content_length lines from_utf8_lossy lossy_loop utf8_byte split_once_colon
    to_ascii_lowercase lower text_eq trim trim_start parse_unsigned parse_digits parse_request
    split_whitespace split_blank collect_headers insert_header
read_posted = refl

nonempty : {c : ℕ} {cs : List ℕ} → c ∷ cs ≢ []
nonempty e = cc

read_request-chunks_example :
    read_request (map received (first_part ∷ second_part ∷ []))
    ≡ read_request (received (flat (first_part ∷ second_part ∷ [])) ∷ [])
unfolding find_bytes window_eq
read_request-chunks_example =
    read_request-chunks (first_part ∷ second_part ∷ []) (nonempty, (nonempty, tt)) (omega arith)
      nonempty

read_request-Buffered_example :
    length ([] ++ first_part) ≤ max_body_bytes + max_header_bytes + 2 * 2048
unfolding read_round find_bytes
read_request-Buffered_example =
    read_request-Buffered ([] ++ first_part) (more [] first_part fresh refl (omega arith))

handle_sidecar_request-IsDelivery_example :
    ((handle_sidecar_request braces posted
        (codes "/webex/events")
        (codes "/healthz")
        (some (codes "secret"))).event
      ≡ some 0)
    ↔ IsDelivery braces posted (codes "/webex/events") (codes "/healthz") (some (codes "secret")) 0
handle_sidecar_request-IsDelivery_example =
    handle_sidecar_request-IsDelivery braces posted (codes "/webex/events") (codes "/healthz")
      (some (codes "secret")) 0

-- Two clients; the second one sends no more than the start of its request.
abbrev clients : List Happening
clients =
    connects
    ∷ connects
    ∷ ends (some (map received (first_part ∷ second_part ∷ []))) true
    ∷ ends (some (map received (first_part ∷ []))) true
    ∷ []

abbrev secret_args : SidecarReceiveArgs
secret_args = record default_sidecar { token = some "secret"; max_events = 5 }

received_one : sidecar_receive braces secret_args none (ok (true ∷ [])) clients ≡ ok (0 ∷ [])
unfolding sidecar_receive validate_loopback_bind expected_token accept_sidecar_connections
    handle_sidecar_connection connection_result handle_sidecar_request is_authorized get_header
    receive_loop read_request read_loop read_round find_bytes window_eq parse_content_length
    find_content_length lines from_utf8_lossy lossy_loop utf8_byte split_once_colon
    to_ascii_lowercase lower text_eq trim trim_start parse_unsigned parse_digits parse_request
    split_whitespace split_blank collect_headers insert_header
received_one = refl

sidecar_receive-WasDelivered_example :
    (token : Option Text) × (expected_token secret_args none ≡ ok token)
    × (token ≡ none → false ≡ true)
    × All (WasDelivered braces (codes "/webex/events") (codes "/healthz") token clients) (0 ∷ [])
    × (0 < 5 → 1 ≤ 5)
sidecar_receive-WasDelivered_example =
    sidecar_receive-WasDelivered braces secret_args none (ok (true ∷ [])) clients (0 ∷ [])
      received_one
