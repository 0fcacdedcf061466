-- ===== src/Realtime/Page.antt =====
-- src/realtime.rs: `collect_page_messages`, the scan of one page.
pub mod Laws
use webex_headless_messenger.Common.{
  String, Bool, true, false, Option, none, some, List, [], ◌∷◌, ◌||◌, contains,
}
use webex_headless_messenger.Message.{Message}
use webex_headless_messenger.Realtime.Seen.{SeenMessageIds, seen_contains}

-- The returned triple, and `local_seen_ids` after the call.
pub record Collected : Type 0 where
  pub fresh : List Message
  pub new_ids : List String
  pub saw_known_message : Bool
  pub local_seen_ids : List String

abbrev pub saw_known : Collected → Collected
saw_known c = record c { saw_known_message = true }

-- `new_ids.push(id)`, and `fresh.push(message)` where messages are emitted.
abbrev pub push : Bool → String → Message → Collected → Collected
push true id message c = record c { fresh = message ∷ c.fresh; new_ids = id ∷ c.new_ids }
push false id message c = record c { new_ids = id ∷ c.new_ids }

-- What the loop does with a message: skip it, pass over a known one, stop at it, or take it.
pub data Scan : Type 0 where
  skip known stop : Scan
  fresh_id : String → Scan

unfoldable pub scan : SeenMessageIds → Bool → List String → Message → Scan
scan seen initialized local_seen_ids message = elim message.id [
  | none ↦ skip
  | some id ↦ elim (seen_contains seen id) [
    | true ↦ elim initialized [ true ↦ stop | false ↦ known ]
    | false ↦ elim (contains id local_seen_ids) [ true ↦ skip | false ↦ fresh_id id ]
  ]
]

unfoldable pub collect_page_messages :
    SeenMessageIds → List Message → Bool → Bool → List String → Collected
collect_page_messages seen [] initialized emit_existing local_seen_ids = record {
  fresh = [];
  new_ids = [];
  saw_known_message = false;
  local_seen_ids = local_seen_ids;
}
collect_page_messages seen (message ∷ rest) initialized emit_existing local_seen_ids =
    elim (scan seen initialized local_seen_ids message) [
      | skip ↦ collect_page_messages seen rest initialized emit_existing local_seen_ids
      | known ↦ saw_known (collect_page_messages seen rest initialized emit_existing local_seen_ids)
      | stop ↦ record {
        fresh = [];
        new_ids = [];
        saw_known_message = true;
        local_seen_ids = local_seen_ids;
      }
      | fresh_id id ↦
          push (initialized || emit_existing) id message
            (collect_page_messages seen rest initialized emit_existing (id ∷ local_seen_ids))
    ]
