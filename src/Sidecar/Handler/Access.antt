-- ===== src/Sidecar/Handler/Access.antt =====
-- Which requests give an event: `handle_sidecar_request` of src/bin/webex-headless.rs.
use webex_headless_messenger.Common.{
  ℕ, ◌≡◌, ◌≢◌, ◌↔◌, refl, ap, ◌∙◌, ==_iff, true, false, Bool-cases, inl, inr, Option, none, some,
  List, [], ◌∷◌, ◌++◌, ◌==◌, arith,
}
use webex_headless_messenger.Common.Text.{codes}
use webex_headless_messenger.Sidecar.{Text, HttpRequest}
use webex_headless_messenger.Sidecar.Lines.{text_eq}
use webex_headless_messenger.Sidecar.Request.{get_header}
use webex_headless_messenger.Sidecar.Handler.{
  handle_sidecar_request, is_authorized, with_event, header_eq, json_ok,
}

pub text_eq_refl : (s : Text) → text_eq s s ≡ true
unfolding text_eq
text_eq_refl [] = refl
text_eq_refl (c ∷ s) = let rest = text_eq_refl s in ground arith

pub text_eq→eq : (s t : Text) → text_eq s t ≡ true → s ≡ t
unfolding text_eq
text_eq→eq [] [] h = refl
text_eq→eq [] (d ∷ t) h = cc
text_eq→eq (c ∷ s) [] h = cc
text_eq→eq (c ∷ s) (d ∷ t) h = elim (Bool-cases (c == d)) [
  | inl e ↦ (let same = text_eq→eq s t (rw e at h) in let first = (==_iff c d).0 e in cc)
  | inr e ↦ cc (rw e at h)
]

text_ne : (s t : Text) → s ≢ t → text_eq s t ≡ false
text_ne s t h = elim (Bool-cases (text_eq s t)) [
  | inl e ↦ absurd (h (text_eq→eq s t e))
  | inr e ↦ e
]

text_eq-false : (s t : Text) → text_eq s t ≡ false → s ≢ t
text_eq-false s t h e = let same = text_eq_refl t in cc (rw e at h)

-- The request carries the token that is expected of it.
abbrev pub IsAuthorized : HttpRequest → Option Text → Type 0
IsAuthorized request none = Unit
IsAuthorized request (some token) =
    get_header (codes "authorization") request.headers ≡ some (codes "Bearer " ++ token)

header_eq_iff : (h : Option Text) (t : Text) → (header_eq h t ≡ true) ↔ (h ≡ some t)
header_eq_iff none t = (λ e. cc, λ e. cc)
header_eq_iff (some h) t =
    (λ e. ap some (text_eq→eq h t e), λ e. let same : h ≡ t = cc in rw same (text_eq_refl t))

is_authorized_iff :
    (request : HttpRequest) (token : Option Text)
    → (is_authorized request token ≡ true) ↔ IsAuthorized request token
unfolding is_authorized
is_authorized_iff request none = (λ e. tt, λ e. refl)
is_authorized_iff request (some token) =
    header_eq_iff (get_header (codes "authorization") request.headers) (codes "Bearer " ++ token)

module _ {Event : Type 0} (event_from_slice : List ℕ → Option Event) where
  -- A request for an event: a POST to the path of events, which is not that of the health check, with the
  -- token and with a body that is an event.
  pub record IsDelivery (request : HttpRequest) (path health_path : Text) (token : Option Text)
      (event : Event) : Type 0 where
    pub is_post : request.method ≡ codes "POST"
    pub is_to_path : request.path ≡ path
    pub is_not_health : request.path ≢ health_path
    pub is_authorized_for : IsAuthorized request token
    pub is_event : event_from_slice request.body ≡ some event

  event_of_body :
      (parsed : Option Event) (event : Event)
      → (with_event event_from_slice parsed).event ≡ some event
      → parsed ≡ some event
  event_of_body none event h = cc
  event_of_body (some e) event h = h

  handled-IsDelivery :
      (request : HttpRequest) (path health_path : Text) (token : Option Text) (event : Event)
      → (handle_sidecar_request event_from_slice request path health_path token).event ≡ some event
      → IsDelivery request path health_path token event
  unfolding handle_sidecar_request
  handled-IsDelivery request path health_path token event h =
      elim (Bool-cases (text_eq request.path health_path)) [
        | inl health ↦ elim (Bool-cases (text_eq request.method (codes "GET"))) [
          | inl get ↦ cc (rw (health, get) at h)
          | inr other ↦ cc (rw (health, other) at h)
        ]
        | inr not_health ↦ elim (Bool-cases (text_eq request.method (codes "POST"))) [
          | inr other ↦ cc (rw (not_health, other) at h)
          | inl post ↦ elim (Bool-cases (text_eq request.path path)) [
            | inr other ↦ cc (rw (not_health, post, other) at h)
            | inl here ↦ elim (Bool-cases (is_authorized request token)) [
              | inr other ↦ cc (rw (not_health, post, here, other) at h)
              | inl known ↦ record {
                is_post = text_eq→eq request.method (codes "POST") post;
                is_to_path = text_eq→eq request.path path here;
                is_not_health = text_eq-false request.path health_path not_health;
                is_authorized_for = (is_authorized_iff request token).0 known;
                is_event =
                    event_of_body (event_from_slice request.body) event
                      (rw (not_health, post, here, known) at h);
              }
            ]
          ]
        ]
      ]

  IsDelivery-handled :
      (request : HttpRequest) (path health_path : Text) (token : Option Text) (event : Event)
      → IsDelivery request path health_path token event
      → handle_sidecar_request event_from_slice request path health_path token
        ≡ record { response = json_ok; event = some event }
  unfolding handle_sidecar_request
  IsDelivery-handled request path health_path token event d =
      let not_health = text_ne request.path health_path d.is_not_health in
      let post : text_eq request.method (codes "POST") ≡ true =
        ap (λ m. text_eq m (codes "POST")) d.is_post ∙ text_eq_refl (codes "POST") in
      let here : text_eq request.path path ≡ true =
        ap (λ p. text_eq p path) d.is_to_path ∙ text_eq_refl path in
      let known = (is_authorized_iff request token).1 d.is_authorized_for in
      rw (not_health, post, here, known, d.is_event) refl

  -- `handle_sidecar_request` gives an event for exactly the requests that are a delivery of it: a POST to the
  -- path of events, not to that of the health check, whose authorization header is "Bearer " and the token
  -- where a token is expected, and whose body serde_json reads as the event.
  pub handle_sidecar_request-IsDelivery :
      (request : HttpRequest) (path health_path : Text) (token : Option Text) (event : Event)
      → ((handle_sidecar_request event_from_slice request path health_path token).event
          ≡ some event)
        ↔ IsDelivery request path health_path token event
  handle_sidecar_request-IsDelivery request path health_path token event = (
    handled-IsDelivery request path health_path token event,
    λ d. ap (λ r. r.event) (IsDelivery-handled request path health_path token event d),
  )
