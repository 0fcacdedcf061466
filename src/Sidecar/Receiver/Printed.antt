-- ===== src/Sidecar/Receiver/Printed.antt =====
-- What `sidecar_receive` of src/bin/webex-headless.rs prints.
use webex_headless_messenger.Common.{
  ℕ, zero, suc, ◌+◌, ◌-◌, ◌≤◌, ◌<◌, ◌≡◌, ◌⊎◌, refl, sym, ap, ◌∙◌, arith, String, Bool, true, false,
  ◌&&◌, Bool-cases, Result-cases, inl, inr, Option, none, some, List, [], ◌∷◌, All, All-take,
  length, length-take, take, ltb, leb, if◌then◌else◌, Result, ok, ◌>>=◌, >>=-eq-ok, ok-injective,
  err-ne-ok,
}
use webex_headless_messenger.Common.Text.{codes}
use webex_headless_messenger.Cli.{SidecarReceiveArgs}
use webex_headless_messenger.Sidecar.{Text, HttpRequest, HttpResponse}
use webex_headless_messenger.Sidecar.Request.{Read, read_request}
use webex_headless_messenger.Sidecar.Handler.{
  timed_out, in_time, connection_result, handle_sidecar_connection,
}
use webex_headless_messenger.Sidecar.Handler.Access.{IsDelivery, handle_sidecar_request-IsDelivery}
use webex_headless_messenger.Sidecar.Receiver.{
  Happening, connects, ends, accept_sidecar_connections, sent, receive_loop, required_token,
  sidecar_receive, validate_loopback_bind, expected_token, max_sidecar_connections,
}

-- The loop prints the first events that its bound leaves, or all where there is no bound.
receive_loop-take :
    {Event : Type 0} (left accepted max_events : ℕ) (events : List Event)
    → max_events ≡ accepted + suc left
    → receive_loop max_events accepted events ≡ take (suc left) events
unfolding receive_loop
receive_loop-take left accepted max_events [] h = refl
receive_loop-take zero accepted max_events (event ∷ events) h =
    let stops : (ltb 0 max_events && leb max_events (accepted + 1)) ≡ true = ground arith in
    rw stops refl
receive_loop-take (suc left) accepted max_events (event ∷ events) h =
    let goes_on : (ltb 0 max_events && leb max_events (accepted + 1)) ≡ false = ground arith in
    rw goes_on
      (ap (◌∷◌ event) (receive_loop-take left (accepted + 1) max_events events (omega arith)))

receive_loop_all :
    {Event : Type 0} (accepted : ℕ) (events : List Event) → receive_loop 0 accepted events ≡ events
unfolding receive_loop
receive_loop_all accepted [] = refl
receive_loop_all accepted (event ∷ events) = ap (◌∷◌ event) (receive_loop_all (accepted + 1) events)

-- As many as `--max-events` allows, where it is not 0.
abbrev pub first_events : {Event : Type 0} → ℕ → List Event → List Event
first_events zero events = events
first_events (suc n) events = take (suc n) events

receive_loop_first :
    {Event : Type 0} (max_events : ℕ) (events : List Event)
    → receive_loop max_events 0 events ≡ first_events max_events events
receive_loop_first zero events = receive_loop_all 0 events
receive_loop_first (suc n) events = receive_loop-take n 0 (suc n) events (omega arith)

All-first_events :
    {Event : Type 0} (P : Event → Type 0) (n : ℕ) (events : List Event)
    → All P events
    → All P (first_events n events)
All-first_events P zero events h = h
All-first_events P (suc n) events h = All-take P (suc n) events h

length-first_events :
    {Event : Type 0} (n : ℕ) (events : List Event) → 0 < n → length (first_events n events) ≤ n
length-first_events zero events h = absurd (omega arith)
length-first_events (suc n) events h = let taken = length-take (suc n) events in omega arith

-- A token is left out only where the command line allows it.
required_token-none :
    (allow : Bool) (o : Option String) → required_token allow o ≡ ok none → allow ≡ true
required_token-none true o h = refl
required_token-none false none h = absurd (err-ne-ok h)
required_token-none false (some token) h = let same = ok-injective h in cc

All-imp :
    {A : Type 0} (P Q : A → Type 0) → ((a : A) → P a → Q a) → (xs : List A) → All P xs → All Q xs
All-imp P Q f [] h = tt
All-imp P Q f (x ∷ xs) h = (f x h.0, All-imp P Q f xs h.1)

All-sent :
    {Event : Type 0} (P : Event → Type 0) (first : HttpResponse × Option Event)
    (rest : List (HttpResponse × Option Event))
    → ((event : Event) → first.1 ≡ some event → P event)
    → All P (sent rest)
    → All P (sent (first ∷ rest))
All-sent P (response, none) rest first others = others
All-sent P (response, some event) rest first others = (first event refl, others)

-- An event is sent only where the response was written.
written_event :
    {Event : Type 0} (written : Bool) (o : Option Event) (event : Event)
    → (if written then o else none) ≡ some event
    → o ≡ some event
written_event true o event h = h
written_event false o event h = cc

module _ {Event : Type 0} (event_from_slice : List ℕ → Option Event) (path health_path : Text)
    (token : Option Text) where
  -- An event that some connection has delivered.
  abbrev pub WasDelivered : List Happening → Event → Type 0
  WasDelivered [] event = ⊥
  WasDelivered (connects ∷ rest) event = WasDelivered rest event
  WasDelivered (ends none written ∷ rest) event = WasDelivered rest event
  WasDelivered (ends (some reads) written ∷ rest) event =
      ((request : HttpRequest) × (read_request reads ≡ ok request)
        × IsDelivery event_from_slice request path health_path token event)
      ⊎ WasDelivered rest event

  not_timed_out :
      (written : Bool) (event : Event)
      → ¬ (
          (handle_sidecar_connection event_from_slice timed_out written path health_path token).1
          ≡ some event)
  unfolding handle_sidecar_connection connection_result
  not_timed_out written event h = let given = written_event written none event h in cc

  event_delivered :
      (reads : List Read) (rest : List Happening) (written : Bool) (event : Event)
      → (handle_sidecar_connection event_from_slice
          (in_time (read_request reads))
          written
          path
          health_path
          token).1
        ≡ some event
      → WasDelivered (ends (some reads) written ∷ rest) event
  unfolding handle_sidecar_connection connection_result
  event_delivered reads rest written event h =
      let given =
        written_event written
          (connection_result event_from_slice (in_time (read_request reads)) path health_path
            token).event
          event h in
      elim (Result-cases (read_request reads)) [
        | inl (request, e) ↦ inl (
          request,
          e,
          (handle_sidecar_request-IsDelivery event_from_slice request path health_path token
                event).0
              (sym (
                  ap
                    (λ r.
                      (connection_result event_from_slice (in_time r) path health_path token).event)
                    e)
                ∙ given),
        )
        | inr (failed, e) ↦
            (let nothing : none ≡ some event =
                sym (
                  ap
                    (λ r.
                      (connection_result event_from_slice (in_time r) path health_path token).event)
                    e)
                ∙ given in
              cc)
      ]

  sent-WasDelivered :
      (in_use : ℕ) (happenings : List Happening)
      → All (WasDelivered happenings) (
          sent
            (accept_sidecar_connections event_from_slice path health_path token in_use happenings))
  unfolding accept_sidecar_connections
  sent-WasDelivered in_use [] = tt
  sent-WasDelivered in_use (connects ∷ rest) =
      elim (Bool-cases (ltb in_use max_sidecar_connections)) [
        | inl e ↦ rw e (sent-WasDelivered (in_use + 1) rest)
        | inr e ↦ rw e (sent-WasDelivered in_use rest)
      ]
  sent-WasDelivered in_use (ends none written ∷ rest) =
      All-sent (WasDelivered (ends none written ∷ rest))
        (handle_sidecar_connection event_from_slice timed_out written path health_path token)
        (accept_sidecar_connections event_from_slice path health_path token (in_use - 1) rest)
        (λ event h. absurd (not_timed_out written event h)) (sent-WasDelivered (in_use - 1) rest)
  sent-WasDelivered in_use (ends (some reads) written ∷ rest) =
      All-sent (WasDelivered (ends (some reads) written ∷ rest))
        (handle_sidecar_connection event_from_slice (in_time (read_request reads)) written path
          health_path token)
        (accept_sidecar_connections event_from_slice path health_path token (in_use - 1) rest)
        (event_delivered reads rest written)
        (All-imp (WasDelivered rest) (WasDelivered (ends (some reads) written ∷ rest))
          (λ event. inr)
          (sent
            (accept_sidecar_connections event_from_slice path health_path token (in_use - 1) rest))
          (sent-WasDelivered (in_use - 1) rest))

module _ {Event : Type 0} (event_from_slice : List ℕ → Option Event) where
  -- What a successful `sidecar_receive` prints: no more events than `--max-events` allows where it is not 0,
  -- and only events that a client delivered in time, by a request that `read_request` read and that was a POST
  -- to the path of events with the expected token and with the event as its body. That no token is
  -- expected is possible only under `--allow-unauthenticated`.
  pub sidecar_receive-WasDelivered :
      (args : SidecarReceiveArgs) (env_token : Option String) (resolved : Result (List Bool))
      (happenings : List Happening) (printed : List Event)
      → sidecar_receive event_from_slice args env_token resolved happenings ≡ ok printed
      → (token : Option Text) × (expected_token args env_token ≡ ok token)
        × (token ≡ none → args.allow_unauthenticated ≡ true)
        × All
            (WasDelivered event_from_slice
              (codes args.path)
              (codes args.health_path)
              token
              happenings)
            printed
        × (0 < args.max_events → length printed ≤ args.max_events)
  unfolding sidecar_receive expected_token
  sidecar_receive-WasDelivered args env_token resolved happenings printed h =
      let events = λ (token : Option Text). sent (
        accept_sidecar_connections event_from_slice (codes args.path) (codes args.health_path) token
          0 happenings) in
      let (_, _, rest) =
        >>=-eq-ok (validate_loopback_bind resolved args.allow_non_loopback)
          (λ _. expected_token args env_token >>= λ token.
            ok (receive_loop args.max_events 0 (events token)))
          h in
      let (token, found, same) =
        >>=-eq-ok (expected_token args env_token)
          (λ token. ok (receive_loop args.max_events 0 (events token))) rest in
      let all_of : first_events args.max_events (events token) ≡ printed =
        sym (receive_loop_first args.max_events (events token)) ∙ ok-injective same in
      let given =
        sent-WasDelivered event_from_slice (codes args.path) (codes args.health_path) token 0
          happenings in
      (
        token,
        found,
        (λ none_left. required_token-none args.allow_unauthenticated _ (found ∙ ap ok none_left)),
        rw (sym all_of) (
            All-first_events
              (WasDelivered event_from_slice (codes args.path) (codes args.health_path) token
                happenings)
              args.max_events (events token) given),
        λ bound. rw (sym all_of) (length-first_events args.max_events (events token) bound),
      )
