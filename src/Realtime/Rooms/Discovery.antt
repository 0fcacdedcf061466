-- ===== src/Realtime/Rooms/Discovery.antt =====
-- src/realtime.rs: `discover_joined_rooms`. The client is a parameter: the first page of rooms, and the
-- page behind a link.
use mathlib.Core.Path.{subst}
use webex_headless_messenger.Common.{
  ℕ, zero, suc, ◌≤◌, String, ◌≡◌, refl, sym, ◌⊎◌, inl, inr, false, Bool-cases, Option, none, some,
  List, [], ◌∷◌, ◌++◌, length, max, ltb, arith, if◌then◌else◌, Error, Result, ok, err,
  max_rooms_exceeded, ok-injective, err-ne-ok,
}
use webex_headless_messenger.Common.OrderedMap.{OrderedMap, get, insert}
use webex_headless_messenger.Message.{Room, Page}
use webex_headless_messenger.Realtime.Config.{RoomDiscoveryConfig}

-- The fields of `types::ListRooms` that the discovery sets.
pub record ListRooms : Type 0 where
  pub team_id : Option String
  pub room_type : Option String
  pub sort_by : Option String
  pub max_items : Option ℕ

pub record RoomClient : Type 0 where
  pub list_rooms : ListRooms → Result (Page Room)
  pub next_page : String → Result (Page Room)

-- The loop's variables.
pub record Discovering : Type 0 where
  pub rooms : List Room
  pub room_indexes : OrderedMap ℕ

-- `rooms[index] = room`; the indexes stored are in range.
unfoldable pub set_at : ℕ → Room → List Room → List Room
set_at i room [] = []
set_at zero room (r ∷ rooms) = room ∷ rooms
set_at (suc i) room (r ∷ rooms) = r ∷ set_at i room rooms

-- The body of the loop over a page's rooms.
unfoldable pub discover_room : Discovering → Room → Discovering
discover_room d room = elim room.id [
  | none ↦ record d { rooms = d.rooms ++ room ∷ [] }
  | some room_id ↦ elim (get room_id d.room_indexes) [
    | some index ↦ record d { rooms = set_at index room d.rooms }
    | none ↦ record {
      rooms = d.rooms ++ room ∷ [];
      room_indexes = insert room_id (length d.rooms) d.room_indexes;
    }
  ]
]

unfoldable pub discover_page : Discovering → List Room → Discovering
discover_page d [] = d
discover_page d (room ∷ rooms) = discover_page (discover_room d room) rooms

-- The loop over pages, of at most `rounds` pages: `none` where they are too few.
unfoldable pub discover_loop :
    RoomClient → ℕ → ℕ → Page Room → Discovering → Option (Result (List Room))
discover_loop client limit zero page d = none
discover_loop client limit (suc rounds) page d =
    let d' = discover_page d page.items in
    if ltb limit (length d'.rooms) then some (err (max_rooms_exceeded limit)) else elim page.next [
      | none ↦ some (ok d'.rooms)
      | some link ↦ elim (client.next_page link) [
        | err e ↦ some (err e)
        | ok page' ↦ discover_loop client limit rounds page' d'
      ]
    ]

abbrev pub first_request : RoomDiscoveryConfig → ListRooms
first_request config = record {
  team_id = config.team_id;
  room_type = config.room_type;
  sort_by = config.sort_by;
  max_items = some config.page_size;
}

unfoldable pub discover_joined_rooms :
    RoomClient → RoomDiscoveryConfig → ℕ → Option (Result (List Room))
discover_joined_rooms client config rounds = elim (client.list_rooms (first_request config)) [
  | err e ↦ some (err e)
  | ok page ↦
      discover_loop client (max config.max_rooms 1) rounds page
        (record { rooms = []; room_indexes = [] })
]

-- The links from the page lead through at most `n` further pages to the last one, or to an error.
abbrev pub EndsWithin : RoomClient → ℕ → Page Room → Type 0
EndsWithin client zero page = page.next ≡ none
EndsWithin client (suc n) page =
    (page.next ≡ none)
    ⊎ ((link : String) × (page.next ≡ some link)
        × (((e : Error) × (client.next_page link ≡ err e))
            ⊎ ((page' : Page Room) × (client.next_page link ≡ ok page')
                × EndsWithin client n page')))

-- The discovery has a result, and rooms that it returns are within the limit.
abbrev pub ReturnsWithin : ℕ → Option (Result (List Room)) → Type 0
ReturnsWithin limit o =
    (r : Result (List Room)) × (o ≡ some r)
    × ((rooms : List Room) → r ≡ ok rooms → length rooms ≤ limit)

error-ReturnsWithin : (limit : ℕ) (e : Error) → ReturnsWithin limit (some (err e))
error-ReturnsWithin limit e = (err e, refl, λ rooms h. absurd (err-ne-ok h))

rooms-ReturnsWithin :
    (limit : ℕ) (rooms : List Room)
    → ltb limit (length rooms) ≡ false
    → ReturnsWithin limit (some (ok rooms))
rooms-ReturnsWithin limit rooms h =
    (ok rooms, refl, λ rooms' e. subst (λ l. length l ≤ limit) (ok-injective e) (ground arith))

-- A page that does not pass the limit's check, or passes it and has the result that is given.
checked-ReturnsWithin :
    (client : RoomClient) (limit n : ℕ) (page : Page Room) (d : Discovering)
    (o : Option (Result (List Room)))
    → (ltb limit (length (discover_page d page.items).rooms) ≡ false
        → discover_loop client limit (suc n) page d ≡ o)
    → (ltb limit (length (discover_page d page.items).rooms) ≡ false → ReturnsWithin limit o)
    → ReturnsWithin limit (discover_loop client limit (suc n) page d)
unfolding discover_loop
checked-ReturnsWithin client limit n page d o same h =
    elim (Bool-cases (ltb limit (length (discover_page d page.items).rooms))) [
      | inl e ↦ rw (e, discover_loop) (error-ReturnsWithin limit (max_rooms_exceeded limit))
      | inr e ↦ subst (ReturnsWithin limit) (sym (same e)) (h e)
    ]

last-ReturnsWithin :
    (client : RoomClient) (limit n : ℕ) (page : Page Room) (d : Discovering)
    → page.next ≡ none
    → ReturnsWithin limit (discover_loop client limit (suc n) page d)
unfolding discover_loop
last-ReturnsWithin client limit n page d q =
    let found = (discover_page d page.items).rooms in
    checked-ReturnsWithin client limit n page d (some (ok found))
      (λ e. rw (e, q, discover_loop) refl) (λ e. rooms-ReturnsWithin limit found e)

discover_loop-ReturnsWithin :
    (client : RoomClient) (limit n : ℕ) (page : Page Room) (d : Discovering)
    → EndsWithin client n page
    → ReturnsWithin limit (discover_loop client limit (suc n) page d)
unfolding discover_loop
discover_loop-ReturnsWithin client limit zero page d h =
    last-ReturnsWithin client limit zero page d h
discover_loop-ReturnsWithin client limit (suc n) page d (inl q) =
    last-ReturnsWithin client limit (suc n) page d q
discover_loop-ReturnsWithin client limit (suc n) page d (inr (link, q, inl (x, f))) =
    checked-ReturnsWithin client limit (suc n) page d (some (err x))
      (λ e. rw (e, q, f, discover_loop) refl) (λ e. error-ReturnsWithin limit x)
discover_loop-ReturnsWithin client limit (suc n) page d (inr (link, q, inr (page', f, g))) =
    let d' = discover_page d page.items in
    checked-ReturnsWithin client limit (suc n) page d (discover_loop client limit (suc n) page' d')
      (λ e. rw (e, q, f, discover_loop) refl)
      (λ e. discover_loop-ReturnsWithin client limit n page' d' g)

-- The discovery's request for the first page succeeds with a page whose links lead through at most `n`
-- further pages to the last one, or to an error. Then a loop of `n + 1` rounds returns, and rooms that it
-- returns are at most `max_rooms`, of which at least one is allowed.
pub discover-ReturnsWithin :
    (client : RoomClient) (config : RoomDiscoveryConfig) (n : ℕ) (page : Page Room)
    → client.list_rooms (first_request config) ≡ ok page
    → EndsWithin client n page
    → ReturnsWithin (max config.max_rooms 1) (discover_joined_rooms client config (suc n))
unfolding discover_joined_rooms
discover-ReturnsWithin client config n page h e =
    rw (h, discover_joined_rooms)
      (discover_loop-ReturnsWithin client (max config.max_rooms 1) n page
        (record { rooms = []; room_indexes = [] }) e)
