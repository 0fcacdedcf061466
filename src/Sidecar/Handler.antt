-- ===== src/Sidecar/Handler.antt =====
-- src/bin/webex-headless.rs: `handle_sidecar_request` and `handle_sidecar_connection`. serde_json's reading
-- of an event is a parameter, as are the timer and whether the response could be written.
pub mod Access
use webex_headless_messenger.Common.{
  ℕ, String, Bool, true, false, Option, none, some, List, [], ◌∷◌, ◌++◌, if◌then◌else◌, Error,
  bad_json, Result, ok, err,
}
use webex_headless_messenger.Common.Text.{codes}
use webex_headless_messenger.Sidecar.{
  Text, HttpRequest, HttpResponse, ResponseBody, okay, refused, failed,
}
use webex_headless_messenger.Sidecar.Lines.{text_eq}
use webex_headless_messenger.Sidecar.Request.{get_header, Read, read_request}

-- `HttpResponse::json_error`, of a text.
abbrev pub json_error : ℕ → String → HttpResponse
json_error status text = record { status = status; body = refused text }

abbrev pub json_ok : HttpResponse
json_ok = record { status = 200; body = okay }

abbrev header_eq : Option Text → Text → Bool
header_eq none expected = false
header_eq (some value) expected = text_eq value expected

-- The authorization header is the expected one, where a token is expected.
unfoldable pub is_authorized : HttpRequest → Option Text → Bool
is_authorized request none = true
is_authorized request (some token) =
    header_eq (get_header (codes "authorization") request.headers) (codes "Bearer " ++ token)

-- What `timeout(…, read_request(…))` gives.
pub data TimedRequest : Type 0 where
  timed_out : TimedRequest
  in_time : Result HttpRequest → TimedRequest

module _ {Event : Type 0} (event_from_slice : List ℕ → Option Event) where
  pub record SidecarHandleResult : Type 0 where
    pub response : HttpResponse
    pub event : Option Event

  abbrev pub answer : HttpResponse → SidecarHandleResult
  answer response = record { response = response; event = none }

  abbrev pub with_event : Option Event → SidecarHandleResult
  with_event (some event) = record { response = json_ok; event = some event }
  with_event none = answer (record { status = 400; body = failed bad_json })

  unfoldable pub handle_sidecar_request :
      HttpRequest → Text → Text → Option Text → SidecarHandleResult
  handle_sidecar_request request expected_path health_path expected_token =
      if text_eq request.path health_path
      then (if text_eq request.method (codes "GET")
          then answer json_ok
          else answer (json_error 405 "method not allowed"))
      else if text_eq request.method (codes "POST")
      then (if text_eq request.path expected_path
          then (if is_authorized request expected_token
              then with_event (event_from_slice request.body)
              else answer (json_error 401 "unauthorized"))
          else answer (json_error 404 "not found"))
      else answer (json_error 405 "method not allowed")

  unfoldable pub connection_result : TimedRequest → Text → Text → Option Text → SidecarHandleResult
  connection_result timed_out path health_path expected_token =
      answer (json_error 408 "request timeout")
  connection_result (in_time (err error)) path health_path expected_token =
      answer (record { status = 400; body = failed error })
  connection_result (in_time (ok request)) path health_path expected_token =
      handle_sidecar_request request path health_path expected_token

  -- A connection: the response it gets, and the event that is sent to the receiver.
  unfoldable pub handle_sidecar_connection :
      TimedRequest → Bool → Text → Text → Option Text → HttpResponse × Option Event
  handle_sidecar_connection request written path health_path expected_token =
      let result = connection_result request path health_path expected_token in
      (result.response, (if written then result.event else none))
