-- ===== src/BotStore.antt =====
-- examples/account_bot.rs: `ProcessedMessageStore`, the account bot's own store. A `BTreeSet` is a map to
-- the unit. Times are seconds. The file is the lines that `persist_state` writes, before their escaping,
-- which `StateId` models.
pub mod Rollback
use webex_headless_messenger.Common.{
  ℕ, zero, suc, ◌+◌, ◌-◌, ◌^◌, String, Bool, true, false, not, Option, none, some, List, [], ◌∷◌,
  ◌++◌, map, length, min, max, ltb, if◌then◌else◌, Error, io, Result, ok, err,
}
use webex_headless_messenger.Common.OrderedMap.{OrderedMap, get, contains_key, insert, remove}

abbrev pub StringSet : Type 0
StringSet = OrderedMap (Unit {0})

pub record ProcessedMessageStore : Type 0 where
  pub ids : StringSet
  pub attempts : OrderedMap ℕ
  pub inflight : StringSet
  pub order : List String
  pub max_ids : ℕ
  pub volatile_ids : StringSet

pub data BeginAttempt : Type 0 where
  started processed processed_after_persist in_progress : BeginAttempt
  attempt_leased : ℕ → BeginAttempt

pub data StateLine : Type 0 where
  processed_v2 : String → StateLine
  attempt_v2 : ℕ → String → StateLine

-- What the next write of the file does: it may fail before the new file takes the old one's place
-- (`replace_state_file`), or after that, in `sync_parent_dir`.
pub data FileWrite : Type 0 where
  succeeds fails fails_after_replace : FileWrite

-- The store, its file, and what the next write of the file does.
pub record Bot : Type 0 where
  pub store : ProcessedMessageStore
  pub file : List StateLine
  pub next_write : FileWrite

-- The `while` loop of `add_processed_id` and `complete_at`; a round takes an element off the queue.
unfoldable pub drop_oldest : ℕ → StringSet → List String → StringSet × List String
drop_oldest max_ids ids [] = (ids, [])
drop_oldest max_ids ids (removed ∷ order) =
    let rest = drop_oldest max_ids (remove removed ids) order in
    if ltb max_ids (length (removed ∷ order)) then rest else (ids, removed ∷ order)

unfoldable pub add_processed_id : StringSet → List String → ℕ → String → StringSet × List String
add_processed_id ids order max_ids id =
    if contains_key id ids
    then (ids, order)
    else drop_oldest max_ids (insert id tt ids) (order ++ id ∷ [])

-- `attempts.retain(..)`: the attempts that are kept.
unfoldable pub live_attempts : ℕ → OrderedMap ℕ → OrderedMap ℕ
live_attempts now [] = []
live_attempts now ((id, expires_at) ∷ attempts) =
    let rest = live_attempts now attempts in
    if ltb now expires_at then (id, expires_at) ∷ rest else rest

-- The loop over the expired ids.
unfoldable pub drop_expired : ℕ → OrderedMap ℕ → StringSet → StringSet
drop_expired now [] inflight = inflight
drop_expired now ((id, expires_at) ∷ attempts) inflight =
    drop_expired now attempts (if ltb now expires_at then inflight else remove id inflight)

unfoldable pub prune_expired_attempts : ProcessedMessageStore → ℕ → ProcessedMessageStore
prune_expired_attempts s now = record s {
  attempts = live_attempts now s.attempts;
  inflight = drop_expired now s.attempts s.inflight;
}

-- The loop of `absorb_volatile_ids`.
unfoldable pub absorb_loop : StringSet → ProcessedMessageStore → ProcessedMessageStore
absorb_loop [] s = s
absorb_loop ((id, _) ∷ volatile_ids) s =
    let (ids, order) = add_processed_id s.ids s.order s.max_ids id in
    absorb_loop volatile_ids (record s {
      ids = ids;
      order = order;
      inflight = remove id s.inflight;
      attempts = remove id s.attempts;
    })

unfoldable pub absorb_volatile_ids : ProcessedMessageStore → ProcessedMessageStore
absorb_volatile_ids s = absorb_loop s.volatile_ids (record s { volatile_ids = [] })

abbrev attempt_line : String × ℕ → StateLine
attempt_line (id, expires_at) = attempt_v2 expires_at id

-- The lines that `persist_state` writes.
unfoldable pub state_lines : ProcessedMessageStore → List StateLine
state_lines s = map processed_v2 s.order ++ map attempt_line s.attempts

-- The five collections that a failed operation takes back.
abbrev pub restored : ProcessedMessageStore → ProcessedMessageStore → ProcessedMessageStore
restored old s = record s {
  ids = old.ids;
  attempts = old.attempts;
  inflight = old.inflight;
  order = old.order;
  volatile_ids = old.volatile_ids;
}

-- `persist_state`, and what `persist` takes back where it fails.
abbrev pub write_state :
    FileWrite → Bot → ProcessedMessageStore → ProcessedMessageStore → Result (Unit {0}) × Bot
write_state succeeds w old s = (ok tt, record w { store = s; file = state_lines s })
write_state fails w old s = (err io, record w { store = restored old s })
write_state fails_after_replace w old s =
    (err io, record w { store = restored old s; file = state_lines s })

-- `persist`, on a store that is not yet the bot's.
unfoldable pub persist : Bot → ProcessedMessageStore → Result (Unit {0}) × Bot
persist w s = write_state w.next_write w s (absorb_volatile_ids s)

-- What an operation does with the result of `persist`: it takes its changes back on an error.
abbrev pub or_restore : ProcessedMessageStore → Result (Unit {0}) × Bot → Result (Unit {0}) × Bot
or_restore old (ok u, w) = (ok u, w)
or_restore old (err e, w) = (err e, record w { store = restored old w.store })

-- What `release` does with the result of `persist`.
abbrev pub or_unreleased : ProcessedMessageStore → Result (Unit {0}) × Bot → Result (Unit {0}) × Bot
or_unreleased old (ok u, w) = (ok u, w)
or_unreleased old (err e, w) = (
  err e,
  record w { store = record w.store { attempts = old.attempts; inflight = old.inflight } },
)

-- The store that `release` persists.
abbrev pub released : ProcessedMessageStore → String → ProcessedMessageStore
released s id = record s { inflight = remove id s.inflight; attempts = remove id s.attempts }

unfoldable pub release : Bot → String → Result (Unit {0}) × Bot
release w id = or_unreleased w.store (persist w (released w.store id))

-- `now.saturating_add(lease.as_secs().max(1))`.
unfoldable pub lease_end : ℕ → ℕ → ℕ
lease_end now lease = min (now + max lease 1) (2 ^ 64 - 1)

unfoldable pub defer_attempt_at : Bot → String → ℕ → ℕ → Result (Unit {0}) × Bot
defer_attempt_at w id lease now =
    let s = prune_expired_attempts w.store now in
    persist w (record s {
      inflight = remove id s.inflight;
      attempts = insert id (lease_end now lease) s.attempts;
    })

-- The store that `complete_at` persists.
unfoldable pub completed : ProcessedMessageStore → String → ℕ → ProcessedMessageStore
completed old id now =
    let s = prune_expired_attempts old now in
    let (ids, order) = add_processed_id s.ids s.order s.max_ids id in
    record s {
      ids = ids;
      order = order;
      inflight = remove id s.inflight;
      attempts = remove id s.attempts;
      volatile_ids = remove id s.volatile_ids;
    }

unfoldable pub complete_at : Bot → String → ℕ → Result (Unit {0}) × Bot
complete_at w id now = or_restore w.store (persist w (completed w.store id now))

abbrev begun_after : Result (Unit {0}) × Bot → Result BeginAttempt × Bot
begun_after (ok u, w) = (ok processed_after_persist, w)
begun_after (err e, w) = (err e, w)

abbrev begun : String → Result (Unit {0}) × Bot → Result BeginAttempt × Bot
begun id (ok u, w) = (ok started, w)
begun id (err e, w) = (
  err e,
  record w {
    store = record w.store {
      inflight = remove id w.store.inflight;
      attempts = remove id w.store.attempts;
    };
  },
)

-- The tail of `begin_attempt_at`.
unfoldable pub begin_new : Bot → String → ℕ → ℕ → Result BeginAttempt × Bot
begin_new w id lease now = begun id (
    persist w (record w.store {
      inflight = insert id tt w.store.inflight;
      attempts = insert id (lease_end now lease) w.store.attempts;
    }))

unfoldable pub begin_attempt_at : Bot → String → ℕ → ℕ → Result BeginAttempt × Bot
begin_attempt_at old id lease now =
    let w = record old { store = prune_expired_attempts old.store now } in
    if contains_key id w.store.ids
    then (ok processed, w)
    else if contains_key id w.store.volatile_ids
    then begun_after (complete_at w id now)
    else if contains_key id w.store.inflight
    then (ok in_progress, w)
    else elim (get id w.store.attempts) [
      | some expires_at ↦ (ok (attempt_leased (max (expires_at - now) 1)), w)
      | none ↦ begin_new w id lease now
    ]

unfoldable pub mark_volatile_processed : ProcessedMessageStore → String → ℕ → ProcessedMessageStore
mark_volatile_processed old id now =
    let s = prune_expired_attempts old now in
    record s {
      inflight = remove id s.inflight;
      attempts = remove id s.attempts;
      volatile_ids = insert id tt s.volatile_ids;
    }
