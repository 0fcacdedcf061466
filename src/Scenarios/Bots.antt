-- ===== src/Scenarios/Bots.antt =====
-- Failed writes of the bot's store.
use webex_headless_messenger.Common.{◌≡◌, refl, [], ◌∷◌, err, io}
use webex_headless_messenger.Common.OrderedMap.{contains_key, insert, remove}
use webex_headless_messenger.BotStore.{
  Bot, fails, fails_after_replace, complete_at, completed, persist, absorb_volatile_ids,
  absorb_loop, add_processed_id, drop_oldest, prune_expired_attempts, live_attempts, drop_expired,
  release,
}
use webex_headless_messenger.BotStore.Rollback.{
  IsUndone, with_success, complete_at-error, release-error,
}

-- A bot that works on a message, with another that it could not write as processed.
abbrev failing_bot : Bot
failing_bot = record {
  store = record {
    ids = [];
    attempts = ("m", 20) ∷ [];
    inflight = ("m", tt) ∷ [];
    order = [];
    max_ids = 2;
    volatile_ids = ("v", tt) ∷ [];
  };
  file = [];
  next_write = fails;
}

complete_m : complete_at failing_bot "m" 10 ≡ (err io, failing_bot)
unfolding complete_at completed persist absorb_volatile_ids absorb_loop add_processed_id drop_oldest
    prune_expired_attempts live_attempts drop_expired contains_key insert remove
complete_m = refl

release_m : release failing_bot "m" ≡ (err io, failing_bot)
unfolding release persist absorb_volatile_ids absorb_loop add_processed_id drop_oldest contains_key
    insert remove
release_m = refl

-- The file is replaced before the write fails.
abbrev replacing_bot : Bot
replacing_bot = record failing_bot { next_write = fails_after_replace }

abbrev replaced_bot : Bot
replaced_bot = record replacing_bot {
  file = (complete_at (with_success failing_bot) "m" 10).1.file;
}

complete_replaced : complete_at replacing_bot "m" 10 ≡ (err io, replaced_bot)
unfolding complete_at completed persist absorb_volatile_ids absorb_loop add_processed_id drop_oldest
    prune_expired_attempts live_attempts drop_expired contains_key insert remove
complete_replaced = refl

complete_at-error_example :
    IsUndone replacing_bot replaced_bot (complete_at (with_success replacing_bot) "m" 10).1
complete_at-error_example = complete_at-error replacing_bot "m" 10 io replaced_bot complete_replaced

release-error_example : IsUndone failing_bot failing_bot (release (with_success failing_bot) "m").1
release-error_example = release-error failing_bot "m" io failing_bot release_m
