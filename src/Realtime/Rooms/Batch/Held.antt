-- ===== src/Realtime/Rooms/Batch/Held.antt =====
-- What happens to the messages of a room while another has a backlog.
use mathlib.Core.Path.{subst}
use mathlib.Core.List.{reverse-reverse}
use webex_headless_messenger.Common.{
  ℕ, String, ◌≡◌, refl, sym, ap, ◌∙◌, inl, inr, Bool, true, false, Bool-cases, Option, none, some,
  List, [], ◌∷◌, reverse,
}
use webex_headless_messenger.Message.{Message}
use webex_headless_messenger.Realtime.Page.Laws.{Matches}
use webex_headless_messenger.Realtime.Poller.{
  MessagePoller, MessagePollUpdate, completed, WebexClient, deliver, is_empty, apply_update,
  poll_once_transaction_before,
}
use webex_headless_messenger.Realtime.Poller.Gathered.{emits, IsHeld}
use webex_headless_messenger.Realtime.Poller.Delivery.{
  poll_once_transaction_before-IsTransaction, IsTransaction,
}
use webex_headless_messenger.Realtime.Poller.Delivery.Polls.{
  IsSound, deliver-IsSound, postpone-IsSound,
}
use webex_headless_messenger.Realtime.Rooms.Inactive.Prune.{true-ne-false}
use webex_headless_messenger.Realtime.Rooms.Batch.{hold_back}

-- A held update leaves what postponing it would.
held-IsSound :
    (p : MessagePoller) (fresh : List Message) (ids : List String)
    → IsSound p
    → IsHeld p fresh ids
    → emits p ≡ true
    → IsSound (
        apply_update p (record (deliver fresh ids) {
          messages = [];
          pending_fresh = reverse (reverse fresh);
          pending_seen_ids = ids;
          seen_ids = [];
          commit_seen = false;
        }))
unfolding apply_update
held-IsSound p fresh ids s h e =
    let k = postpone-IsSound p s fresh ids h "" e in
    let k' : IsSound (record p {
      seed_seen_message_ids = none;
      seen = p.seen;
      pending_fresh = fresh;
      pending_seen_ids = ids;
      backlog_next = some "";
      initialized = true;
    }) =
      k in
    subst
      (λ l. IsSound (record p {
        seed_seen_message_ids = none;
        seen = p.seen;
        pending_fresh = l;
        pending_seen_ids = ids;
        backlog_next = none;
        initialized = true;
      }))
      (sym (reverse-reverse fresh))
      (record {
        valid = k'.valid;
        bounded = k'.bounded;
        held = record {
          nodup = k'.held.nodup;
          new = k'.held.new;
          matches = k'.held.matches;
          within = k'.held.within;
        };
      })

-- Where messages come, the poller emits.
messages-emits :
    (p : MessagePoller) (fresh : List Message) (ids : List String)
    → IsHeld p fresh ids
    → is_empty (reverse fresh) ≡ false
    → emits p ≡ true
messages-emits p fresh ids h f = elim (Bool-cases (emits p)) [
  | inl e ↦ e
  | inr e ↦ absurd (
      true-ne-false
        (sym (ap (λ l. is_empty (reverse l)) (subst (λ b. Matches b fresh ids) e h.matches)) ∙ f))
]

hold-IsSound :
    (p : MessagePoller) (u : MessagePollUpdate) (has_backlog : Bool)
    → IsSound p
    → IsTransaction p (completed u)
    → IsSound (apply_update p (hold_back has_backlog u))
unfolding hold_back
hold-IsSound p u has_backlog s (inr (fresh, ids, link, h, q, e)) =
    subst (λ v. IsSound (apply_update p (hold_back has_backlog v))) (sym e)
      (elim (Bool-cases has_backlog) [
        | inl b ↦ rw b (postpone-IsSound p s fresh ids h link q)
        | inr b ↦ rw b (postpone-IsSound p s fresh ids h link q)
      ])
hold-IsSound p u has_backlog s (inl (fresh, ids, h, e)) =
    subst (λ v. IsSound (apply_update p (hold_back has_backlog v))) (sym e)
      (elim (Bool-cases has_backlog) [
        | inr b ↦ rw b (deliver-IsSound p s fresh ids h)
        | inl b ↦ rw b (elim (Bool-cases (is_empty (reverse fresh))) [
          | inl f ↦ rw f (deliver-IsSound p s fresh ids h)
          | inr f ↦ rw f (held-IsSound p fresh ids s h (messages-emits p fresh ids h f))
        ])
      ])

-- The update that keeps what `deliver` would deliver.
abbrev held_update : List Message → List String → MessagePollUpdate
held_update fresh ids = record (deliver fresh ids) {
  messages = [];
  pending_fresh = fresh;
  pending_seen_ids = ids;
  seen_ids = [];
  commit_seen = false;
}

hold_back-deliver :
    (fresh : List Message) (ids : List String)
    → is_empty (reverse fresh) ≡ false
    → hold_back true (deliver fresh ids) ≡ held_update fresh ids
unfolding hold_back
hold_back-deliver fresh ids f = rw f (ap (λ l. held_update l ids) (reverse-reverse fresh))

deliver-again :
    (client : WebexClient) (p : MessagePoller) (fresh : List Message) (ids : List String)
    (before : Option ℕ)
    → is_empty (reverse fresh) ≡ false
    → poll_once_transaction_before client (apply_update p (held_update fresh ids)) before
      ≡ completed (deliver fresh ids)
unfolding apply_update poll_once_transaction_before
deliver-again client p [] ids before f = absurd (true-ne-false f)
deliver-again client p (m ∷ fresh) ids before f = refl

hold_delivers :
    (client : WebexClient) (p : MessagePoller) (u : MessagePollUpdate) (before : Option ℕ)
    → IsTransaction p (completed u)
    → is_empty u.messages ≡ false
    → poll_once_transaction_before client (apply_update p (hold_back true u)) before ≡ completed u
hold_delivers client p u before (inr (fresh, ids, link, h, q, e)) n =
    absurd (true-ne-false (ap (λ (v : MessagePollUpdate). is_empty v.messages) (sym e) ∙ n))
hold_delivers client p u before (inl (fresh, ids, h, e)) n =
    let f : is_empty (reverse fresh) ≡ false =
      ap (λ (v : MessagePollUpdate). is_empty v.messages) (sym e) ∙ n in
    ap (λ v. poll_once_transaction_before client (apply_update p (hold_back true v)) before) e
    ∙ ap (λ v. poll_once_transaction_before client (apply_update p v) before)
        (hold_back-deliver fresh ids f)
    ∙ deliver-again client p fresh ids before f
    ∙ ap completed (sym e)

-- What a transaction completes with.
completed-IsTransaction :
    (client : WebexClient) (p : MessagePoller) (before : Option ℕ) (u : MessagePollUpdate)
    → IsSound p
    → poll_once_transaction_before client p before ≡ completed u
    → IsTransaction p (completed u)
completed-IsTransaction client p before u s e =
    subst (IsTransaction p) e (poll_once_transaction_before-IsTransaction client p before s.held)

-- Let a transaction of a sound poller complete with an update, whatever the server's pages are. The update
-- leaves the poller sound, whether it is held back or not.
pub hold_back-IsSound :
    (client : WebexClient) (p : MessagePoller) (before : Option ℕ) (u : MessagePollUpdate)
    (has_backlog : Bool)
    → IsSound p
    → poll_once_transaction_before client p before ≡ completed u
    → IsSound (apply_update p (hold_back has_backlog u))
hold_back-IsSound client p before u has_backlog s e =
    hold-IsSound p u has_backlog s (completed-IsTransaction client p before u s e)

-- Let a transaction of a sound poller complete with an update that has messages, and let the update be
-- held back. The messages are not lost: whatever the server does then, the room's next transaction
-- completes with the same update.
pub hold_back-delivers :
    (client client' : WebexClient) (p : MessagePoller) (before before' : Option ℕ)
    (u : MessagePollUpdate)
    → IsSound p
    → poll_once_transaction_before client p before ≡ completed u
    → is_empty u.messages ≡ false
    → poll_once_transaction_before client' (apply_update p (hold_back true u)) before' ≡ completed u
hold_back-delivers client client' p before before' u s e n =
    hold_delivers client' p u before' (completed-IsTransaction client p before u s e) n
