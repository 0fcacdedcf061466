-- ===== src/Scenarios/Polls.antt =====
-- Runs of one room's poller.
use webex_headless_messenger.Common.{
  String, ◌≡◌, refl, ◌⊎◌, true, false, none, some, List, [], ◌∷◌, take, max, arith, io, ok, err,
}
use webex_headless_messenger.Message.{Message}
use webex_headless_messenger.Realtime.Config.{default_polling}
use webex_headless_messenger.Realtime.Seen.{
  SeenMessageIds, default_seen, seen_contains, truncate, truncate_loop, remember_newest_first,
  remember_loop, insert_newest, pop_back, set_remove,
}
use webex_headless_messenger.Realtime.Seen.Laws.{IsValid, default-IsValid, truncate_lem}
use webex_headless_messenger.Realtime.Seen.Order.{order-remember_newest_first}
use webex_headless_messenger.Realtime.Page.{scan, collect_page_messages}
use webex_headless_messenger.Realtime.Page.Laws.{Gathers, collect-Gathers}
use webex_headless_messenger.Realtime.Poller.{
  replace_checkpoint, MessagePoller, WebexClient, poll_once, settle, poll_once_transaction_before,
  page_loop, page_round, end_round, ensure_pending_within_limit, apply_update,
}
use webex_headless_messenger.Realtime.Poller.Gathered.{emits}
use webex_headless_messenger.Realtime.Poller.Delivery.Polls.{
  IsSound, Delivers, nothing-IsHeld, poll_once-IsSound, replace_checkpoint-IsSound,
  poll_once-Delivers, poll_once-error,
}
use webex_headless_messenger.Realtime.Poller.Delivery.Repeats.{AreApart, poll_once-no_repeat}

abbrev pub message_of : String → Message
message_of id = record {
  id = some id;
  parent_id = none;
  room_id = none;
  room_type = none;
  to_person_id = none;
  to_person_email = none;
  text = none;
  markdown = none;
  html = none;
  files = [];
  attachments = [];
  person_id = none;
  person_email = none;
  mentioned_people = [];
  mentioned_groups = [];
  created = none;
  updated = none;
  is_voice_clip = none;
}

-- A server with two messages, the newest first.
abbrev pub two_messages : WebexClient
two_messages = record {
  list_messages =
      λ request. ok (record { items = message_of "b" ∷ message_of "a" ∷ []; next = none });
  next_page = λ link. err io;
}

abbrev unreachable : WebexClient
unreachable = record { list_messages = λ request. err io; next_page = λ link. err io }

-- A poller of a room that is known to have been empty.
abbrev pub known_poller : MessagePoller
known_poller = record {
  room_id = "r";
  config = default_polling;
  seen = default_seen;
  backlog_next = none;
  pending_fresh = [];
  pending_seen_ids = [];
  initialized = true;
  seed_seen_message_ids = none;
}

pub known-IsSound : IsSound known_poller
known-IsSound = record {
  valid = default-IsValid;
  bounded = omega arith;
  held = nothing-IsHeld known_poller;
}

abbrev polled_poller : MessagePoller
polled_poller = record known_poller {
  seen = record { ids = "b" ∷ "a" ∷ []; order = "b" ∷ "a" ∷ [] };
}

poll_new :
    poll_once two_messages known_poller ≡ (ok (message_of "a" ∷ message_of "b" ∷ []), polled_poller)
unfolding poll_once settle poll_once_transaction_before page_loop page_round end_round
    collect_page_messages scan seen_contains ensure_pending_within_limit apply_update
    remember_newest_first remember_loop truncate truncate_loop insert_newest pop_back set_remove
poll_new = refl

poll_again : poll_once two_messages polled_poller ≡ (ok [], polled_poller)
unfolding poll_once settle poll_once_transaction_before page_loop page_round end_round
    collect_page_messages scan seen_contains ensure_pending_within_limit apply_update
    remember_newest_first remember_loop truncate truncate_loop insert_newest pop_back set_remove
poll_again = refl

poll_unreachable : poll_once unreachable known_poller ≡ (err io, known_poller)
unfolding poll_once settle poll_once_transaction_before
poll_unreachable = refl

poll_once-no_repeat_example : AreApart (message_of "a" ∷ message_of "b" ∷ []) []
poll_once-no_repeat_example =
    poll_once-no_repeat two_messages two_messages known_poller
      (message_of "a" ∷ message_of "b" ∷ []) polled_poller [] polled_poller known-IsSound poll_new
      poll_again (omega arith)

poll_once-IsSound_example : IsSound (poll_once two_messages known_poller).1
poll_once-IsSound_example = poll_once-IsSound two_messages known_poller known-IsSound

poll_once-Delivers_example :
    (ids : List String) × Delivers known_poller polled_poller
      (message_of "a" ∷ message_of "b" ∷ [])
      ids
poll_once-Delivers_example =
    poll_once-Delivers two_messages known_poller (message_of "a" ∷ message_of "b" ∷ [])
      polled_poller known-IsSound poll_new

poll_once-error_example :
    (known_poller.seen ≡ known_poller.seen)
    × ((known_poller ≡ known_poller) ⊎ (emits known_poller ≡ true))
poll_once-error_example =
    poll_once-error unreachable known_poller io known_poller (nothing-IsHeld known_poller)
      poll_unreachable

abbrev one_seen : SeenMessageIds
one_seen = record { ids = "a" ∷ []; order = "a" ∷ [] }

one-IsValid : IsValid one_seen
one-IsValid = record {
  ids_nodup = (refl, tt);
  order_nodup = (refl, tt);
  same_length = refl;
  same_ids = λ k. refl;
}

order-remember_newest_first_example :
    (remember_newest_first one_seen ("c" ∷ "b" ∷ []) 2).order
    ≡ take (max 2 1) ("c" ∷ "b" ∷ "a" ∷ [])
order-remember_newest_first_example =
    order-remember_newest_first one_seen ("c" ∷ "b" ∷ []) 2 one-IsValid (omega arith)
      (refl, (refl, tt)) (refl, (refl, tt))

truncate_lem_example :
    IsValid (truncate one_seen 0) × ((truncate one_seen 0).order ≡ take (max 0 1) ("a" ∷ []))
truncate_lem_example = truncate_lem one_seen 0 one-IsValid

collect-Gathers_example :
    Gathers one_seen true []
      (collect_page_messages one_seen (message_of "b" ∷ message_of "a" ∷ []) true false [])
collect-Gathers_example =
    collect-Gathers one_seen (message_of "b" ∷ message_of "a" ∷ []) true false []

replace_checkpoint-IsSound_example :
    IsSound (replace_checkpoint known_poller ("a" ∷ "a" ∷ []) false)
replace_checkpoint-IsSound_example = replace_checkpoint-IsSound known_poller ("a" ∷ "a" ∷ []) false
