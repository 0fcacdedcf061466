-- ===== src/Realtime/Poller/Delivery/Polls.antt =====
-- What a poll delivers and what it leaves in the poller.
use mathlib.Core.Path.{subst}
use mathlib.Core.List.{reverse-reverse}
use webex_headless_messenger.Common.{
  ◌≤◌, String, ◌≡◌, refl, sym, ap, ◌∙◌, ◌⊎◌, inl, inr, Bool, true, false, none, List, [], ◌∷◌, ◌++◌,
  length, length-take, take-of_le, max, take, arith, Error, ok, err, ok-injective, err-ne-ok,
  reverse,
}
use webex_headless_messenger.Message.{Message}
use webex_headless_messenger.Realtime.Seen.{SeenMessageIds}
use webex_headless_messenger.Realtime.Seen.Laws.{IsNodup, IsValid, default-IsValid}
use webex_headless_messenger.Realtime.Seen.Order.{
  remember_newest_first_bounded, AreNew, order-remember_newest_first, remember_newest_first-IsValid,
}
use webex_headless_messenger.Realtime.Page.Laws.{Matches}
use webex_headless_messenger.Realtime.Seen.{default_seen}
use webex_headless_messenger.Realtime.Poller.{
  replace_checkpoint, reseed_seen_message_ids, MessagePoller, MessagePollUpdate, Transaction,
  completed, interrupted, WebexClient, deliver, postpone, new, poll_once_transaction_before,
  apply_update, settle, poll_once,
}
use webex_headless_messenger.Realtime.Poller.Gathered.{emits, IsHeld}
use webex_headless_messenger.Realtime.Poller.Delivery.{
  IsTransaction, poll_once_transaction_before-IsTransaction,
}

-- A poller between polls: its memory is valid and within its bound, and what it holds may be held.
pub record IsSound (p : MessagePoller) : Type 0 where
  pub valid : IsValid p.seen
  pub bounded : length p.seen.order ≤ max p.config.max_seen_ids 1
  pub held : IsHeld p p.pending_fresh p.pending_seen_ids

-- Ids that are new in the queue are new in the set.
pub AreNew-order :
    (seen : SeenMessageIds) (ids : List String)
    → IsValid seen
    → AreNew ids seen.ids
    → AreNew ids seen.order
AreNew-order seen [] v a = tt
AreNew-order seen (x ∷ ids) v a = (sym (v.same_ids x) ∙ a.0, AreNew-order seen ids v a.1)

Matches-empty : (b : Bool) → Matches b [] []
Matches-empty true = refl
Matches-empty false = refl

pub nothing-IsHeld : (p : MessagePoller) → IsHeld p [] []
nothing-IsHeld p = record {
  nodup = tt;
  new = tt;
  matches = Matches-empty (emits p);
  within = (omega arith, omega arith);
}

module _ (p : MessagePoller) (s : IsSound p) (fresh : List Message) (ids : List String)
    (h : IsHeld p fresh ids) where
  pub order-deliver :
      (apply_update p (deliver fresh ids)).seen.order
      ≡ take (max p.config.max_seen_ids 1) (ids ++ p.seen.order)
  unfolding apply_update
  order-deliver =
      order-remember_newest_first p.seen ids p.config.max_seen_ids s.valid s.bounded h.nodup
        (AreNew-order p.seen ids s.valid h.new)

  pub deliver-IsSound : IsSound (apply_update p (deliver fresh ids))
  unfolding apply_update
  deliver-IsSound = record {
    valid = remember_newest_first-IsValid p.seen ids p.config.max_seen_ids s.valid;
    bounded = omega (
      arith,
      ap length order-deliver,
      length-take (max p.config.max_seen_ids 1) (ids ++ p.seen.order),
    );
    held = nothing-IsHeld (apply_update p (deliver fresh ids));
  }

  pub postpone-IsSound :
      (link : String) → emits p ≡ true → IsSound (apply_update p (postpone fresh ids link))
  unfolding apply_update
  postpone-IsSound link e = record {
    valid = s.valid;
    bounded = s.bounded;
    held = record {
      nodup = h.nodup;
      new = h.new;
      matches = subst (λ b. Matches b fresh ids) e h.matches;
      within = h.within;
    };
  }

settle-IsSound :
    (p : MessagePoller) (t : Transaction) → IsSound p → IsTransaction p t → IsSound (settle p t).1
unfolding settle
settle-IsSound p (completed u) s (inl (fresh, ids, h, e)) =
    subst (λ v. IsSound (apply_update p v)) (sym e) (deliver-IsSound p s fresh ids h)
settle-IsSound p (completed u) s (inr (fresh, ids, link, h, q, e)) =
    subst (λ v. IsSound (apply_update p v)) (sym e) (postpone-IsSound p s fresh ids h link q)
settle-IsSound p (interrupted x) s (inl e) = rw e s
settle-IsSound p (interrupted x) s (inr (fresh, ids, link, h, q, e)) =
    rw e (postpone-IsSound p s fresh ids h link q)

pub new-IsSound : (room_id : String) → IsSound (new room_id)
unfolding new
new-IsSound room_id = record {
  valid = default-IsValid;
  bounded = omega arith;
  held = nothing-IsHeld (new room_id);
}

-- A poller that is given a checkpoint is sound, whatever ids the checkpoint holds and whatever the poller
-- was.
pub replace_checkpoint-IsSound :
    (p : MessagePoller) (seen_ids : List String) (initialize_empty : Bool)
    → IsSound (replace_checkpoint p seen_ids initialize_empty)
unfolding replace_checkpoint reseed_seen_message_ids
replace_checkpoint-IsSound p [] true = record {
  valid = default-IsValid;
  bounded = omega arith;
  held = nothing-IsHeld _;
}
replace_checkpoint-IsSound p [] false = record {
  valid = default-IsValid;
  bounded = omega arith;
  held = nothing-IsHeld _;
}
replace_checkpoint-IsSound p (id ∷ ids) initialize_empty = record {
  valid =
      remember_newest_first-IsValid default_seen (id ∷ ids) p.config.max_seen_ids default-IsValid;
  bounded =
      remember_newest_first_bounded default_seen (id ∷ ids) p.config.max_seen_ids default-IsValid
        (omega arith);
  held = nothing-IsHeld _;
}

-- A poll leaves a sound poller sound, whatever the server's pages are and whether they fail.
pub poll_once-IsSound :
    (client : WebexClient) (p : MessagePoller) → IsSound p → IsSound (poll_once client p).1
unfolding poll_once
poll_once-IsSound client p s =
    settle-IsSound p (poll_once_transaction_before client p none) s
      (poll_once_transaction_before-IsTransaction client p none s.held)

-- The poll of `p` delivers the messages, those of the ids, and leaves `q`: the ids are distinct and new,
-- and are remembered as the newest; a first poll that emits nothing has no message.
pub record Delivers (p q : MessagePoller) (messages : List Message) (ids : List String)
    : Type 0 where
  pub nodup : IsNodup ids
  pub new : AreNew ids p.seen.ids
  pub matches : Matches (emits p) (reverse messages) ids
  pub remembered : q.seen.order ≡ take (max p.config.max_seen_ids 1) (ids ++ p.seen.order)

update-Delivers :
    (p : MessagePoller) (u : MessagePollUpdate)
    → IsSound p
    → IsTransaction p (completed u)
    → (ids : List String) × Delivers p (apply_update p u) u.messages ids
update-Delivers p u s (inl (fresh, ids, h, e)) =
    subst (λ v. (ids : List String) × Delivers p (apply_update p v) v.messages ids) (sym e)
      (
        ids,
        record {
          nodup = h.nodup;
          new = h.new;
          matches = subst (λ l. Matches (emits p) l ids) (sym (reverse-reverse fresh)) h.matches;
          remembered = order-deliver p s fresh ids h;
        },
      )
update-Delivers p u s (inr (fresh, ids, link, h, k, e)) =
    subst (λ v. (ids : List String) × Delivers p (apply_update p v) v.messages ids) (sym e)
      (unfold apply_update in
        (
          [],
          record {
            nodup = tt;
            new = tt;
            matches = Matches-empty (emits p);
            remembered = sym (take-of_le (max p.config.max_seen_ids 1) p.seen.order s.bounded);
          },
        ))

settle-Delivers :
    (p : MessagePoller) (t : Transaction) (messages : List Message) (q : MessagePoller)
    → IsSound p
    → IsTransaction p t
    → settle p t ≡ (ok messages, q)
    → (ids : List String) × Delivers p q messages ids
unfolding settle
settle-Delivers p (completed u) messages q s i eq =
    let e : u.messages ≡ messages = ok-injective (ap (λ z. z.0) eq) in
    let f : apply_update p u ≡ q = ap (λ z. z.1) eq in
    subst (λ r. (ids : List String) × Delivers p r messages ids) f
      (subst (λ m. (ids : List String) × Delivers p (apply_update p u) m ids) e
        (update-Delivers p u s i))
settle-Delivers p (interrupted x) messages q s i eq = absurd (err-ne-ok (ap (λ z. z.0) eq))

-- A sound poller's poll that succeeds has distinct ids, none of them seen, and remembers them as its
-- newest, as many as its memory holds. It returns the messages of these ids, oldest first, or no message
-- where the poller emits nothing.
pub poll_once-Delivers :
    (client : WebexClient) (p : MessagePoller) (messages : List Message) (q : MessagePoller)
    → IsSound p
    → poll_once client p ≡ (ok messages, q)
    → (ids : List String) × Delivers p q messages ids
unfolding poll_once
poll_once-Delivers client p messages q s eq =
    settle-Delivers p (poll_once_transaction_before client p none) messages q s
      (poll_once_transaction_before-IsTransaction client p none s.held) eq

settle-error :
    (p : MessagePoller) (t : Transaction) (e : Error) (q : MessagePoller)
    → IsTransaction p t
    → settle p t ≡ (err e, q)
    → (q.seen ≡ p.seen) × ((q ≡ p) ⊎ (emits p ≡ true))
unfolding settle apply_update
settle-error p (completed u) e q i eq = absurd (err-ne-ok (sym (ap (λ z. z.0) eq)))
settle-error p (interrupted x) e q (inl f) eq =
    let g : p ≡ q = ap (λ z. z.1) (rw f at eq) in
    (ap (λ (z : MessagePoller). z.seen) (sym g), inl (sym g))
settle-error p (interrupted x) e q (inr (fresh, ids, link, h, k, f)) eq =
    let g : apply_update p (postpone fresh ids link) ≡ q = ap (λ z. z.1) (rw f at eq) in
    (ap (λ (z : MessagePoller). z.seen) (sym g), inr k)

-- Let the poller's pending messages be as they may be held. A poll that fails remembers no id; it leaves a
-- poller that emits nothing as it was.
pub poll_once-error :
    (client : WebexClient) (p : MessagePoller) (e : Error) (q : MessagePoller)
    → IsHeld p p.pending_fresh p.pending_seen_ids
    → poll_once client p ≡ (err e, q)
    → (q.seen ≡ p.seen) × ((q ≡ p) ⊎ (emits p ≡ true))
unfolding poll_once
poll_once-error client p e q h eq =
    settle-error p (poll_once_transaction_before client p none) e q
      (poll_once_transaction_before-IsTransaction client p none h) eq
