-- ===== src/Realtime/Poller/Delivery.antt =====
-- What a poll's transaction returns.
pub mod Polls
pub mod Repeats
use mathlib.Core.Path.{subst}
use webex_headless_messenger.Common.{
  ℕ, zero, suc, String, ◌≡◌, refl, sym, ap, ◌∙◌, ◌⊎◌, inl, inr, Bool, true, false, ◌||◌, ◌&&◌,
  Bool-cases, Option, none, some, List, [], ◌∷◌, ◌++◌, length, max, arith, Error, Result, ok, err,
  not, if◌then◌else◌, ◌==◌,
}
use webex_headless_messenger.Message.{Message, Page}
use webex_headless_messenger.Realtime.Seen.Laws.{IsNodup, IsValid}
use webex_headless_messenger.Realtime.Page.{Collected}
use webex_headless_messenger.Realtime.Poller.{
  MessagePoller, MessagePollUpdate, MessagePollError, Transaction, completed, interrupted,
  WebexClient, Round, finished, follow, deliver, postpone, end_round, page_round, page_error,
  page_loop, first_page, is_some, is_empty, preserve_pending_on_page_error,
  poll_once_transaction_before, ensure_pending_within_limit,
}
use webex_headless_messenger.Realtime.Poller.Gathered.{
  emits, IsHeld, SameIds, ensure-WithinLimit, scanned, scanned-IsHeld,
}

-- The update delivers what is held.
abbrev pub Delivered : MessagePoller → MessagePollUpdate → Type 0
Delivered p u =
    (fresh : List Message) × (ids : List String) × IsHeld p fresh ids × (u ≡ deliver fresh ids)

-- What is held is kept, behind the link.
abbrev pub Kept : {A : Type 0} → (MessagePollUpdate → A) → MessagePoller → A → Type 0
Kept wrap p u =
    (fresh : List Message) × (ids : List String) × (link : String) × IsHeld p fresh ids
    × (emits p ≡ true)
    × (u ≡ wrap (postpone fresh ids link))

-- A transaction delivers what is held or keeps it; an error keeps it or has no update.
abbrev pub IsTransaction : MessagePoller → Transaction → Type 0
IsTransaction p (completed u) = Delivered p u ⊎ Kept (λ v. v) p u
IsTransaction p (interrupted e) = (e.update ≡ none) ⊎ Kept some p e.update

abbrev IsRound : MessagePoller → Round → Type 0
IsRound p (finished t) = IsTransaction p t
IsRound p (follow fresh ids local_ids link) = IsHeld p fresh ids × SameIds local_ids ids

end_round-IsRound :
    (p : MessagePoller) (is_last : Bool) (fresh : List Message) (ids : List String) (c : Collected)
    (next : Option String)
    → IsHeld p fresh ids
    → SameIds c.local_seen_ids ids
    → IsRound p (end_round p is_last fresh ids c next)
unfolding end_round
end_round-IsRound p is_last fresh ids c next h s =
    elim (Bool-cases (c.saw_known_message && p.initialized)) [
      | inl e ↦ rw e (inl (fresh, ids, h, refl))
      | inr e ↦ rw e (on_link next is_last)
    ]
  where
    on_link :
        (next : Option String) (is_last : Bool)
        → IsRound p (elim next [
          | none ↦ finished (completed (deliver fresh ids))
          | some link ↦
              if is_last
              then finished (
                  completed (
                    if p.initialized || p.config.emit_existing_on_first_poll
                    then postpone fresh ids link
                    else deliver fresh ids))
              else follow fresh ids c.local_seen_ids link
        ])
    on_link none is_last = inl (fresh, ids, h, refl)
    on_link (some link) false = (h, s)
    on_link (some link) true =
        elim (Bool-cases (p.initialized || p.config.emit_existing_on_first_poll)) [
          | inl e ↦ rw e (inr (fresh, ids, link, h, refl, refl))
          | inr e ↦ rw e (inl (fresh, ids, h, refl))
        ]

page_round-IsRound :
    (p : MessagePoller) (is_last : Bool) (page : Page Message) (fresh : List Message)
    (ids local_ids : List String)
    → IsHeld p fresh ids
    → SameIds local_ids ids
    → IsRound p (page_round p is_last page fresh ids local_ids)
unfolding page_round
page_round-IsRound p is_last page fresh ids local_ids h s =
    let c = scanned p page fresh ids local_ids in
    on_limit
      (ensure_pending_within_limit (length (fresh ++ c.fresh)) (length (ids ++ c.new_ids))
        p.config.max_pending_messages)
      refl
  where
    on_limit :
        (r : Result (Unit {0}))
        → ensure_pending_within_limit
            (length (fresh ++ (scanned p page fresh ids local_ids).fresh))
            (length (ids ++ (scanned p page fresh ids local_ids).new_ids))
            p.config.max_pending_messages
          ≡ r
        → IsRound p (elim r [
          | err e ↦ finished (interrupted (record { error = e; update = none }))
          | ok _ ↦
              end_round p is_last
                (fresh ++ (scanned p page fresh ids local_ids).fresh)
                (ids ++ (scanned p page fresh ids local_ids).new_ids)
                (scanned p page fresh ids local_ids)
                page.next
        ])
    on_limit (err e) q = inl refl
    on_limit (ok u) q =
        let c = scanned p page fresh ids local_ids in
        let (h', s') = scanned-IsHeld p page fresh ids local_ids h s (
          ensure-WithinLimit (fresh ++ c.fresh) (ids ++ c.new_ids) p.config.max_pending_messages u
            q) in
        end_round-IsRound p is_last (fresh ++ c.fresh) (ids ++ c.new_ids) c page.next h' s'

page_error-IsTransaction :
    (p : MessagePoller) (fresh : List Message) (ids : List String) (link : String) (e : Error)
    → IsHeld p fresh ids
    → IsTransaction p (page_error p fresh ids link e)
unfolding page_error preserve_pending_on_page_error
page_error-IsTransaction p fresh ids link e h =
    elim (Bool-cases (p.initialized || p.config.emit_existing_on_first_poll)) [
      | inl q ↦ rw q (inr (fresh, ids, link, h, refl, refl))
      | inr q ↦ rw q (inl refl)
    ]

-- What follows a round, where the rest of the loop keeps the predicate.
module _ (client : WebexClient) (p : MessagePoller)
    (continue_with : Page Message → List Message → List String → List String → Transaction)
    (keeps : (page : Page Message) (fresh : List Message) (ids local_ids : List String)
      → IsHeld p fresh ids
      → SameIds local_ids ids
      → IsTransaction p (continue_with page fresh ids local_ids)) where
  on_page :
      (r : Result (Page Message)) (fresh : List Message) (ids local_ids : List String)
      (link : String)
      → IsHeld p fresh ids
      → SameIds local_ids ids
      → IsTransaction p (elim r [
        | err e ↦ page_error p fresh ids link e
        | ok page ↦ continue_with page fresh ids local_ids
      ])
  on_page (err e) fresh ids local_ids link h s = page_error-IsTransaction p fresh ids link e h
  on_page (ok page) fresh ids local_ids link h s = keeps page fresh ids local_ids h s

  on_round :
      (r : Round)
      → IsRound p r
      → IsTransaction p (elim r [
        | finished t ↦ t
        | follow fresh ids local_ids link ↦ elim (client.next_page link) [
          | err e ↦ page_error p fresh ids link e
          | ok page ↦ continue_with page fresh ids local_ids
        ]
      ])
  on_round (finished t) h = h
  on_round (follow fresh ids local_ids link) h =
      on_page (client.next_page link) fresh ids local_ids link h.0 h.1

page_loop-IsTransaction :
    (client : WebexClient) (p : MessagePoller) (rounds : ℕ) (page : Page Message)
    (fresh : List Message) (ids local_ids : List String)
    → IsHeld p fresh ids
    → SameIds local_ids ids
    → IsTransaction p (page_loop client p rounds page fresh ids local_ids)
unfolding page_loop
page_loop-IsTransaction client p zero page fresh ids local_ids h s = inl (fresh, ids, h, refl)
page_loop-IsTransaction client p (suc rounds) page fresh ids local_ids h s =
    on_round client p (page_loop client p rounds) (page_loop-IsTransaction client p rounds)
      (page_round p (rounds == 0) page fresh ids local_ids)
      (page_round-IsRound p (rounds == 0) page fresh ids local_ids h s)

-- Let the poller's pending messages be as they may be held. Then its transaction delivers such messages,
-- or keeps them behind a link, or is an error that keeps them or has no update.
pub poll_once_transaction_before-IsTransaction :
    (client : WebexClient) (p : MessagePoller) (before : Option ℕ)
    → IsHeld p p.pending_fresh p.pending_seen_ids
    → IsTransaction p (poll_once_transaction_before client p before)
unfolding poll_once_transaction_before
poll_once_transaction_before-IsTransaction client p before h =
    elim (Bool-cases (not (is_some p.backlog_next) && not (is_empty p.pending_fresh))) [
      | inl e ↦ rw e (inl (p.pending_fresh, p.pending_seen_ids, h, refl))
      | inr e ↦ rw e (on_first (first_page client p before))
    ]
  where
    on_first :
        (r : Result (Page Message))
        → IsTransaction p (elim r [
          | err e ↦ interrupted (record { error = e; update = none })
          | ok page ↦
              page_loop client p
                (max p.config.max_pages_per_poll 1)
                page
                p.pending_fresh
                p.pending_seen_ids
                p.pending_seen_ids
        ])
    on_first (err e) = inl refl
    on_first (ok page) =
        page_loop-IsTransaction client p (max p.config.max_pages_per_poll 1) page p.pending_fresh
          p.pending_seen_ids p.pending_seen_ids h (λ k. refl)
