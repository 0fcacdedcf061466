-- ===== src/Realtime/Poller/Gathered.antt =====
-- What the loop over pages has gathered.
use mathlib.Core.Path.{ap₂}
use mathlib.Core.List.{map-append}
use webex_headless_messenger.Common.{
  ℕ, ◌≤◌, String, ◌≡◌, refl, sym, ◌∙◌, Bool, true, false, ◌||◌, some, List, [], ◌∷◌, ◌++◌, length,
  max, arith, contains, ok, eq_iff,
}
use webex_headless_messenger.Message.{Message, Page}
use webex_headless_messenger.Realtime.Seen.Laws.{IsNodup, contains-append}
use webex_headless_messenger.Realtime.Seen.Order.{AreNew}
use webex_headless_messenger.Realtime.Page.{Collected, collect_page_messages}
use webex_headless_messenger.Realtime.Page.Laws.{Matches, collect-Gathers}
use webex_headless_messenger.Realtime.Poller.{MessagePoller, ensure_pending_within_limit}

-- Whether the messages that a poll gathers are delivered.
abbrev pub emits : MessagePoller → Bool
emits p = p.initialized || p.config.emit_existing_on_first_poll

-- At most as many messages and ids are held as the limit allows.
abbrev pub WithinLimit : ℕ → List Message → List String → Type 0
WithinLimit max_pending_messages fresh ids =
    (length fresh ≤ max max_pending_messages 1) × (length ids ≤ max max_pending_messages 1)

-- Messages and ids that a poll may hold: distinct ids, none of them seen, with their messages.
pub record IsHeld (p : MessagePoller) (fresh : List Message) (ids : List String) : Type 0 where
  pub nodup : IsNodup ids
  pub new : AreNew ids p.seen.ids
  pub matches : Matches (emits p) fresh ids
  pub within : WithinLimit p.config.max_pending_messages fresh ids

-- The third variable of the loop holds the same ids.
abbrev pub SameIds : List String → List String → Type 0
SameIds xs ys = (k : String) → contains k xs ≡ contains k ys

IsNodup-append : (xs ys : List String) → IsNodup xs → IsNodup ys → AreNew ys xs → IsNodup (xs ++ ys)
IsNodup-append [] ys n n' a = n'
IsNodup-append (x ∷ xs) ys n n' a =
    let (e, b) = AreNew-cons x xs ys a in
    (contains-append x xs ys ∙ ground (arith, n.0, e), IsNodup-append xs ys n.1 n' b)
  where
    AreNew-cons :
        (x : String) (xs ys : List String)
        → AreNew ys (x ∷ xs)
        → (contains x ys ≡ false) × AreNew ys xs
    AreNew-cons x xs [] h = (refl, tt)
    AreNew-cons x xs (y ∷ ys) h =
        let (e, b) = AreNew-cons x xs ys h.1 in
        (ground (arith, h.0, e, eq_iff x y, eq_iff y x), (ground (arith, h.0), b))

AreNew-append : (xs ys zs : List String) → AreNew xs zs → AreNew ys zs → AreNew (xs ++ ys) zs
AreNew-append [] ys zs a b = b
AreNew-append (x ∷ xs) ys zs a b = (a.0, AreNew-append xs ys zs a.1 b)

AreNew-same : (xs ys zs : List String) → SameIds ys zs → AreNew xs ys → AreNew xs zs
AreNew-same [] ys zs s a = tt
AreNew-same (x ∷ xs) ys zs s a = (sym (s x) ∙ a.0, AreNew-same xs ys zs s a.1)

Matches-append :
    (b : Bool) (fresh more : List Message) (ids ids' : List String)
    → Matches b fresh ids
    → Matches b more ids'
    → Matches b (fresh ++ more) (ids ++ ids')
Matches-append true fresh more ids ids' m m' =
    map-append (λ (m : Message). m.id) fresh more ∙ ap₂ ◌++◌ m m' ∙ sym (map-append some ids ids')
Matches-append false fresh more ids ids' m m' = ap₂ ◌++◌ m m'

pub ensure-WithinLimit :
    (fresh : List Message) (ids : List String) (limit : ℕ) (u : Unit {0})
    → ensure_pending_within_limit (length fresh) (length ids) limit ≡ ok u
    → WithinLimit limit fresh ids
unfolding ensure_pending_within_limit
ensure-WithinLimit fresh ids limit u h = (ground arith, ground arith)

module _ (p : MessagePoller) (page : Page Message) (fresh : List Message)
    (ids local_ids : List String) where
  -- What the scan of a page returns in a round.
  abbrev pub scanned : Collected
  scanned =
      collect_page_messages p.seen page.items p.initialized p.config.emit_existing_on_first_poll
        local_ids

  -- A round that passes the limit's check holds what it held with the page's additions.
  pub scanned-IsHeld :
      IsHeld p fresh ids
      → SameIds local_ids ids
      → WithinLimit p.config.max_pending_messages (fresh ++ scanned.fresh) (ids ++ scanned.new_ids)
      → IsHeld p (fresh ++ scanned.fresh) (ids ++ scanned.new_ids)
        × SameIds scanned.local_seen_ids (ids ++ scanned.new_ids)
  scanned-IsHeld h s w =
      let g =
        collect-Gathers p.seen page.items p.initialized p.config.emit_existing_on_first_poll
          local_ids in
      (
        record {
          nodup =
              IsNodup-append ids scanned.new_ids h.nodup g.nodup
                (AreNew-same scanned.new_ids local_ids ids s g.apart);
          new = AreNew-append ids scanned.new_ids p.seen.ids h.new g.new;
          matches =
              Matches-append (emits p) fresh scanned.fresh ids scanned.new_ids h.matches g.matches;
          within = w;
        },
        λ k. g.locals k ∙ ground (arith, s k, contains-append k ids scanned.new_ids),
      )
