-- ===== src/Sidecar/Receiver.antt =====
-- src/bin/webex-headless.rs: `sidecar_receive`. The environment's token, the addresses that the bind address
-- resolves to and what the clients do are arguments; the asynchronous tasks are the order of what happens.
pub mod Printed
use webex_headless_messenger.Common.{
  ℕ, ◌+◌, ◌-◌, String, Bool, true, false, ◌&&◌, not, Option, none, some, List, [], ◌∷◌, ltb, leb,
  if◌then◌else◌, Error, cli, bind_unresolved, bind_not_loopback, token_required, Result, ok, err,
  ◌>>=◌,
}
use webex_headless_messenger.Common.Text.{codes}
use webex_headless_messenger.Cli.{SidecarReceiveArgs}
use webex_headless_messenger.Cli.Auth.{not_empty}
use webex_headless_messenger.Sidecar.{Text, HttpRequest, HttpResponse}
use webex_headless_messenger.Sidecar.Request.{Read, read_request}
use webex_headless_messenger.Sidecar.Handler.{
  TimedRequest, timed_out, in_time, handle_sidecar_connection, json_error,
}

abbrev pub max_sidecar_connections : ℕ
max_sidecar_connections = 32

-- `iter().all(is_loopback)`.
abbrev pub all_loopback : List Bool → Bool
all_loopback [] = true
all_loopback (is_loopback ∷ rest) = is_loopback && all_loopback rest

-- What the `lookup_host` gives of each address: whether it is a loopback address.
abbrev pub check_resolved : Bool → List Bool → Result (Unit {0})
check_resolved allow_non_loopback [] = err (cli bind_unresolved)
check_resolved allow_non_loopback (first ∷ rest) =
    if not allow_non_loopback && not (all_loopback (first ∷ rest))
    then err (cli bind_not_loopback)
    else ok tt

unfoldable pub validate_loopback_bind : Result (List Bool) → Bool → Result (Unit {0})
validate_loopback_bind resolved allow_non_loopback = resolved >>= check_resolved allow_non_loopback

-- `or_else` and `filter`.
abbrev pub token_or : Option String → Option String → Option String
token_or (some token) env_token = some token
token_or none env_token = env_token

abbrev pub required_token : Bool → Option String → Result (Option Text)
required_token allow_unauthenticated (some token) = ok (some (codes token))
required_token allow_unauthenticated none =
    if allow_unauthenticated then ok none else err (cli token_required)

unfoldable pub expected_token : SidecarReceiveArgs → Option String → Result (Option Text)
expected_token args env_token =
    required_token args.allow_unauthenticated (not_empty (token_or args.token env_token))

-- A client connects; a connection that has a permit ends, with what its request came to and whether the
-- response could be written.
pub data Happening : Type 0 where
  connects : Happening
  ends : Option (List Read) → Bool → Happening

-- `timeout(…, read_request(…))`.
abbrev pub timed : Option (List Read) → TimedRequest
timed none = timed_out
timed (some reads) = in_time (read_request reads)

abbrev too_many : HttpResponse
too_many = json_error 503 "too many sidecar connections"

abbrev pub sent : {Event : Type 0} → List (HttpResponse × Option Event) → List Event
sent [] = []
sent ((response, none) ∷ rest) = sent rest
sent ((response, some event) ∷ rest) = event ∷ sent rest

-- The rest of the `while` loop over the events of the channel, after `accepted` of them: what it prints.
unfoldable pub receive_loop : {Event : Type 0} → ℕ → ℕ → List Event → List Event
receive_loop max_events accepted [] = []
receive_loop max_events accepted (event ∷ events) =
    let rest = receive_loop max_events (accepted + 1) events in
    if ltb 0 max_events && leb max_events (accepted + 1) then event ∷ [] else event ∷ rest

module _ {Event : Type 0} (event_from_slice : List ℕ → Option Event) where
  -- `accept_sidecar_connections` and the tasks that it spawns, with the permits in use: the responses, and
  -- the events that are sent, in the order of the sends.
  unfoldable pub accept_sidecar_connections :
      Text → Text → Option Text → ℕ → List Happening → List (HttpResponse × Option Event)
  accept_sidecar_connections path health_path token in_use [] = []
  accept_sidecar_connections path health_path token in_use (connects ∷ rest) =
      if ltb in_use max_sidecar_connections
      then accept_sidecar_connections path health_path token (in_use + 1) rest
      else (too_many, none) ∷ accept_sidecar_connections path health_path token in_use rest
  accept_sidecar_connections path health_path token in_use (ends request written ∷ rest) =
      handle_sidecar_connection event_from_slice (timed request) written path health_path token
      ∷ accept_sidecar_connections path health_path token (in_use - 1) rest

  unfoldable pub sidecar_receive :
      SidecarReceiveArgs → Option String → Result (List Bool) → List Happening → Result (List Event)
  sidecar_receive args env_token resolved happenings = do
    _ ← validate_loopback_bind resolved args.allow_non_loopback
    token ← expected_token args env_token
    ok (
        receive_loop args.max_events 0 (
          sent (
            accept_sidecar_connections (codes args.path) (codes args.health_path) token 0
              happenings)))
