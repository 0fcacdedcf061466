-- ===== src/Realtime/Poller.antt =====
-- src/realtime.rs: `MessagePoller`. The poller's client is a parameter: a page or an error for each
-- request. A request's `DateTime` is an instant as in `State`.
pub mod Gathered
pub mod Delivery
use webex_headless_messenger.Common.{
  ℕ, zero, suc, ◌+◌, String, Bool, true, false, not, ◌&&◌, ◌||◌, Option, none, some, List, [], ◌∷◌,
  ◌++◌, length, reverse, max, ltb, ◌==◌, if◌then◌else◌, Error, backlog_exceeded, Result, ok, err,
}
use webex_headless_messenger.Checkpoint.{RoomCheckpoint, new_checkpoint, known_empty}
use webex_headless_messenger.Message.{Message, Page}
use webex_headless_messenger.Realtime.Config.{PollingConfig, default_polling}
use webex_headless_messenger.Realtime.Seen.{
  SeenMessageIds, default_seen, truncate, remember_newest_first,
}
use webex_headless_messenger.Realtime.Page.{Collected, collect_page_messages}

-- `types::ListMessages`, the parameters of `list_messages`.
pub record ListMessages : Type 0 where
  pub room_id : String
  pub before : Option ℕ
  pub max_items : Option ℕ

-- What the poller uses of `WebexClient`: the first page of a listing, and the page behind a link.
pub record WebexClient : Type 0 where
  pub list_messages : ListMessages → Result (Page Message)
  pub next_page : String → Result (Page Message)

unfoldable pub preserve_pending_on_page_error : Bool → Bool → Bool
preserve_pending_on_page_error initialized emit_existing = initialized || emit_existing

unfoldable pub ensure_pending_within_limit : ℕ → ℕ → ℕ → Result (Unit {0})
ensure_pending_within_limit pending_messages pending_ids max_pending_messages =
    let limit = max max_pending_messages 1 in
    if ltb limit pending_messages || ltb limit pending_ids
    then err (backlog_exceeded limit)
    else ok tt

pub record MessagePoller : Type 0 where
  pub room_id : String
  pub config : PollingConfig
  pub seen : SeenMessageIds
  pub backlog_next : Option String
  pub pending_fresh : List Message
  pub pending_seen_ids : List String
  pub initialized : Bool
  pub seed_seen_message_ids : Option (List String)

pub record MessagePollUpdate : Type 0 where
  pub messages : List Message
  pub seen_ids : List String
  pub pending_fresh : List Message
  pub pending_seen_ids : List String
  pub backlog_next : Option String
  pub initialized : Bool
  pub commit_seen : Bool

pub record MessagePollError : Type 0 where
  pub error : Error
  pub update : Option MessagePollUpdate

-- `Result<MessagePollUpdate, MessagePollError>`.
pub data Transaction : Type 0 where
  completed : MessagePollUpdate → Transaction
  interrupted : MessagePollError → Transaction

-- `MessagePoller::new`.
unfoldable pub new : String → MessagePoller
new room_id = record {
  room_id = room_id;
  config = default_polling;
  seen = default_seen;
  backlog_next = none;
  pending_fresh = [];
  pending_seen_ids = [];
  initialized = false;
  seed_seen_message_ids = none;
}

unfoldable pub reseed_seen_message_ids : MessagePoller → List String → MessagePoller
reseed_seen_message_ids p ids = record p {
  seen = remember_newest_first default_seen ids p.config.max_seen_ids;
}

-- `set_config`, and `with_config`.
unfoldable pub set_config : MessagePoller → PollingConfig → MessagePoller
unfolding reseed_seen_message_ids
set_config p config =
    let q = record p { config = config } in
    elim p.seed_seen_message_ids [
      | some ids ↦ reseed_seen_message_ids q ids
      | none ↦ record q { seen = truncate p.seen config.max_seen_ids }
    ]

abbrev pub is_empty {ℓ} : {A : Type ℓ} → List A → Bool
is_empty [] = true
is_empty (x ∷ xs) = false

unfoldable pub replace_checkpoint : MessagePoller → List String → Bool → MessagePoller
unfolding reseed_seen_message_ids
replace_checkpoint p seen_ids initialize_empty =
    let cleared = record p {
      seen = default_seen;
      backlog_next = none;
      pending_fresh = [];
      pending_seen_ids = [];
      initialized = false;
      seed_seen_message_ids = none;
    } in
    if is_empty seen_ids
    then (if initialize_empty then record cleared { initialized = true } else cleared)
    else record (reseed_seen_message_ids (record cleared { seed_seen_message_ids = some seen_ids })
        seen_ids) { initialized = true }

unfoldable pub with_seen_message_ids : MessagePoller → List String → MessagePoller
unfolding reseed_seen_message_ids
with_seen_message_ids p ids =
    if is_empty ids
    then p
    else record (reseed_seen_message_ids (record p { seed_seen_message_ids = some ids }) ids) {
      initialized = true;
    }

unfoldable pub with_empty_seen_boundary : MessagePoller → MessagePoller
with_empty_seen_boundary p = record p { initialized = true }

abbrev is_some {ℓ} : {A : Type ℓ} → Option A → Bool
is_some none = false
is_some (some a) = true

unfoldable pub has_pending_backlog : MessagePoller → Bool
has_pending_backlog p =
    is_some p.backlog_next || not (is_empty p.pending_fresh) || not (is_empty p.pending_seen_ids)

-- The update that delivers what was gathered, oldest message first.
abbrev pub deliver : List Message → List String → MessagePollUpdate
deliver fresh ids = record {
  messages = reverse fresh;
  seen_ids = ids;
  pending_fresh = [];
  pending_seen_ids = [];
  backlog_next = none;
  initialized = true;
  commit_seen = true;
}

-- The update that keeps what was gathered for a later poll.
abbrev pub postpone : List Message → List String → String → MessagePollUpdate
postpone fresh ids next = record {
  messages = [];
  seen_ids = [];
  pending_fresh = fresh;
  pending_seen_ids = ids;
  backlog_next = some next;
  initialized = true;
  commit_seen = false;
}

-- How one round of the loop over pages ends: with the transaction, or with the link to follow.
pub data Round : Type 0 where
  finished : Transaction → Round
  follow : List Message → List String → List String → String → Round

-- The rest of a round, once the limit has been checked.
unfoldable pub end_round :
    MessagePoller → Bool → List Message → List String → Collected → Option String → Round
end_round p is_last fresh ids c next =
    if c.saw_known_message && p.initialized
    then finished (completed (deliver fresh ids))
    else elim next [
      | none ↦ finished (completed (deliver fresh ids))
      | some link ↦
          if is_last
          then finished (
              completed (
                if p.initialized || p.config.emit_existing_on_first_poll
                then postpone fresh ids link
                else deliver fresh ids))
          else follow fresh ids c.local_seen_ids link
    ]

-- One round: `fresh`, `new_ids` and `local_seen_ids` are the loop's variables.
unfoldable pub page_round :
    MessagePoller → Bool → Page Message → List Message → List String → List String → Round
page_round p is_last page fresh new_ids local_seen_ids =
    let c =
      collect_page_messages p.seen page.items p.initialized p.config.emit_existing_on_first_poll
        local_seen_ids in
    let fresh' = fresh ++ c.fresh in
    let ids' = new_ids ++ c.new_ids in
    elim (ensure_pending_within_limit (length fresh') (length ids') p.config.max_pending_messages) [
      | err e ↦ finished (interrupted (record { error = e; update = none }))
      | ok _ ↦ end_round p is_last fresh' ids' c page.next
    ]

-- The error of a page after the first.
unfoldable pub page_error :
    MessagePoller → List Message → List String → String → Error → Transaction
page_error p fresh ids link error = interrupted (record {
  error = error;
  update =
      if preserve_pending_on_page_error p.initialized p.config.emit_existing_on_first_poll
      then some (postpone fresh ids link)
      else none;
})

-- The `for` loop over `page_index`; the number is of the rounds left, and there is at least one.
unfoldable pub page_loop :
    WebexClient
    → MessagePoller
    → ℕ
    → Page Message
    → List Message
    → List String
    → List String
    → Transaction
page_loop client p zero page fresh new_ids local_seen_ids = completed (deliver fresh new_ids)
page_loop client p (suc rounds) page fresh new_ids local_seen_ids =
    elim (page_round p (rounds == 0) page fresh new_ids local_seen_ids) [
      | finished t ↦ t
      | follow fresh' ids' local' link ↦ elim (client.next_page link) [
        | err e ↦ page_error p fresh' ids' link e
        | ok page' ↦ page_loop client p rounds page' fresh' ids' local'
      ]
    ]

abbrev pub first_page : WebexClient → MessagePoller → Option ℕ → Result (Page Message)
first_page client p before = elim p.backlog_next [
  | some next ↦ client.next_page next
  | none ↦
      client.list_messages
        (record { room_id = p.room_id; before = before; max_items = some p.config.page_size })
]

unfoldable pub poll_once_transaction_before : WebexClient → MessagePoller → Option ℕ → Transaction
poll_once_transaction_before client p before =
    if not (is_some p.backlog_next) && not (is_empty p.pending_fresh)
    then completed (deliver p.pending_fresh p.pending_seen_ids)
    else elim (first_page client p before) [
      | err e ↦ interrupted (record { error = e; update = none })
      | ok page ↦
          page_loop client p (max p.config.max_pages_per_poll 1) page p.pending_fresh
            p.pending_seen_ids p.pending_seen_ids
    ]

-- `checkpoint_from_seen`.
unfoldable pub checkpoint_from_seen : String → SeenMessageIds → RoomCheckpoint
checkpoint_from_seen room_id seen =
    if is_empty seen.order then known_empty room_id else new_checkpoint room_id seen.order

unfoldable pub checkpoint_after_update :
    MessagePoller → String → MessagePollUpdate → Option RoomCheckpoint
unfolding checkpoint_from_seen
checkpoint_after_update p room_id update =
    if not update.commit_seen
    then none
    else some (
        checkpoint_from_seen room_id
          (remember_newest_first p.seen update.seen_ids p.config.max_seen_ids))

unfoldable pub current_checkpoint : MessagePoller → String → Option RoomCheckpoint
unfolding checkpoint_from_seen
current_checkpoint p room_id =
    if p.initialized then some (checkpoint_from_seen room_id p.seen) else none

unfoldable pub apply_update : MessagePoller → MessagePollUpdate → MessagePoller
apply_update p update = record p {
  seed_seen_message_ids = none;
  seen =
      if update.commit_seen
      then remember_newest_first p.seen update.seen_ids p.config.max_seen_ids
      else p.seen;
  pending_fresh = update.pending_fresh;
  pending_seen_ids = update.pending_seen_ids;
  backlog_next = update.backlog_next;
  initialized = update.initialized;
}

-- The `match` of `poll_once` on what the transaction returned.
unfoldable pub settle : MessagePoller → Transaction → Result (List Message) × MessagePoller
unfolding apply_update
settle p (completed update) = (ok update.messages, apply_update p update)
settle p (interrupted e) =
    (err e.error, elim e.update [ none ↦ p | some update ↦ apply_update p update ])

unfoldable pub poll_once : WebexClient → MessagePoller → Result (List Message) × MessagePoller
poll_once client p = settle p (poll_once_transaction_before client p none)
