-- ===== src/Realtime/Poller/Delivery/Repeats.antt =====
-- What successive polls deliver.
use mathlib.Core.Path.{subst}
use mathlib.Core.List.{reverse-reverse, reverse-cons}
use webex_headless_messenger.Common.{
  ℕ, zero, suc, ◌≤◌, String, ◌≡◌, refl, sym, ap, ◌∙◌, ◌⊎◌, inl, inr, true, false, ◌||◌, none, some,
  map, Bool-cases, List, [], ◌∷◌, ◌++◌, length, length-append, max, take, arith, ok, err-ne-ok,
  reverse, contains,
}
use webex_headless_messenger.Message.{Message}
use webex_headless_messenger.Realtime.Seen.Laws.{IsNodup}
use webex_headless_messenger.Realtime.Seen.Order.{AreNew}
use webex_headless_messenger.Realtime.Page.Laws.{Matches, ids_of}
use webex_headless_messenger.Realtime.Poller.{
  MessagePoller, MessagePollUpdate, Transaction, completed, interrupted, WebexClient,
  poll_once_transaction_before, apply_update, settle, poll_once,
}
use webex_headless_messenger.Realtime.Poller.Gathered.{emits}
use webex_headless_messenger.Realtime.Poller.Delivery.{
  IsTransaction, poll_once_transaction_before-IsTransaction,
}
use webex_headless_messenger.Realtime.Poller.Delivery.Polls.{
  IsSound, poll_once-IsSound, Delivers, poll_once-Delivers, AreNew-order,
}

contains-take_append :
    (k : String) (n : ℕ) (xs ys : List String)
    → length xs ≤ n
    → contains k (take n (xs ++ ys)) ≡ false
    → contains k xs ≡ false
contains-take_append k n [] ys le h = refl
contains-take_append k zero (x ∷ xs) ys le h = absurd (omega arith)
contains-take_append k (suc n) (x ∷ xs) ys le h = ground (arith, contains-take_append k n xs ys)

AreNew-taken :
    (ids xs ys : List String) (n : ℕ)
    → length xs ≤ n
    → AreNew ids (take n (xs ++ ys))
    → AreNew ids xs
AreNew-taken [] xs ys n le a = tt
AreNew-taken (x ∷ ids) xs ys n le a =
    (contains-take_append x n xs ys le a.0, AreNew-taken ids xs ys n le a.1)

update-initialized :
    (p : MessagePoller) (u : MessagePollUpdate)
    → IsTransaction p (completed u)
    → u.initialized ≡ true
update-initialized p u (inl (fresh, ids, h, e)) = ap (λ (v : MessagePollUpdate). v.initialized) e
update-initialized p u (inr (fresh, ids, link, h, k, e)) =
    ap (λ (v : MessagePollUpdate). v.initialized) e

settle-initialized :
    (p : MessagePoller) (t : Transaction) (messages : List Message) (q : MessagePoller)
    → IsTransaction p t
    → settle p t ≡ (ok messages, q)
    → emits q ≡ true
unfolding settle apply_update
settle-initialized p (completed u) messages q i eq =
    ap emits (sym (ap (λ z. z.1) eq))
    ∙ ap (λ b. b || p.config.emit_existing_on_first_poll) (update-initialized p u i)
settle-initialized p (interrupted x) messages q i eq = absurd (err-ne-ok (ap (λ z. z.0) eq))

-- A poll that succeeds leaves a poller that emits.
poll_once-emits :
    (client : WebexClient) (p : MessagePoller) (messages : List Message) (q : MessagePoller)
    → IsSound p
    → poll_once client p ≡ (ok messages, q)
    → emits q ≡ true
unfolding poll_once
poll_once-emits client p messages q s eq =
    settle-initialized p (poll_once_transaction_before client p none) messages q
      (poll_once_transaction_before-IsTransaction client p none s.held) eq

-- The messages are those of the ids, oldest first.
abbrev pub HasIds : List Message → List String → Type 0
HasIds messages ids = ids_of (reverse messages) ≡ map some ids

length-map {ℓ κ} :
    {A : Type ℓ} {B : Type κ} (f : A → B) (xs : List A) → length (map f xs) ≡ length xs
length-map f [] = refl
length-map f (x ∷ xs) = ap suc (length-map f xs)

length-reverse {ℓ} : {A : Type ℓ} (xs : List A) → length (reverse xs) ≡ length xs
length-reverse [] = refl
length-reverse (x ∷ xs) =
    ap length (reverse-cons x xs)
    ∙ omega (arith, length-append (reverse xs) (x ∷ []), length-reverse xs)

length-HasIds :
    (messages : List Message) (ids : List String)
    → HasIds messages ids
    → length ids ≡ length messages
length-HasIds messages ids h =
    sym (length-map some ids)
    ∙ ap length (sym h)
    ∙ length-map (λ (m : Message). m.id) (reverse messages)
    ∙ length-reverse messages

-- No message of the second list has the id of one of the first, and the messages of each have distinct ids.
abbrev pub AreApart : List Message → List Message → Type 0
AreApart messages messages' =
    (ids : List String) × (ids' : List String) × (HasIds messages ids × HasIds messages' ids')
    × (IsNodup ids × IsNodup ids')
    × AreNew ids' ids

-- The ids of a poll's messages, as far as it has messages.
emitted :
    (p q : MessagePoller) (messages : List Message) (ids : List String)
    → Delivers p q messages ids
    → HasIds messages ids ⊎ (messages ≡ [])
emitted p q messages ids d = elim (Bool-cases (emits p)) [
  | inl e ↦ inl (subst (λ b. Matches b (reverse messages) ids) e d.matches)
  | inr e ↦ inr (
      sym (reverse-reverse messages)
      ∙ ap reverse (subst (λ b. Matches b (reverse messages) ids) e d.matches))
]

AreNew-nil : (xs : List String) → AreNew xs []
AreNew-nil [] = tt
AreNew-nil (x ∷ xs) = (refl, AreNew-nil xs)

apart :
    (p q r : MessagePoller) (messages messages' : List Message) (ids ids' : List String)
    → IsSound q
    → emits q ≡ true
    → length messages ≤ max p.config.max_seen_ids 1
    → Delivers p q messages ids
    → Delivers q r messages' ids'
    → AreApart messages messages'
apart p q r messages messages' ids ids' s e le d d' =
    let h' : HasIds messages' ids' = subst (λ b. Matches b (reverse messages') ids') e d'.matches in
    elim (emitted p q messages ids d) [
      | inl h ↦ (
        ids,
        ids',
        (h, h'),
        (d.nodup, d'.nodup),
        AreNew-taken ids' ids p.seen.order (max p.config.max_seen_ids 1)
            (omega (arith, length-HasIds messages ids h, le))
            (subst (AreNew ids') d.remembered (AreNew-order q.seen ids' s.valid d'.new)),
      )
      | inr h ↦ ([], ids', (ap (λ m. ids_of (reverse m)) h, h'), (tt, d'.nodup), AreNew-nil ids')
    ]

-- Let a sound poller poll twice with success, whatever the server's pages are, and let the first poll
-- deliver no more messages than the memory holds. Then no message is delivered twice: the ids of each
-- poll's messages are distinct, and none of the second poll's is one of the first's.
pub poll_once-no_repeat :
    (client client' : WebexClient) (p : MessagePoller) (messages : List Message) (q : MessagePoller)
    (messages' : List Message) (r : MessagePoller)
    → IsSound p
    → poll_once client p ≡ (ok messages, q)
    → poll_once client' q ≡ (ok messages', r)
    → length messages ≤ max p.config.max_seen_ids 1
    → AreApart messages messages'
poll_once-no_repeat client client' p messages q messages' r s eq eq' le =
    let s' : IsSound q = subst IsSound (ap (λ z. z.1) eq) (poll_once-IsSound client p s) in
    let (ids, d) = poll_once-Delivers client p messages q s eq in
    let (ids', d') = poll_once-Delivers client' q messages' r s' eq' in
    apart p q r messages messages' ids ids' s' (poll_once-emits client p messages q s eq) le d d'
