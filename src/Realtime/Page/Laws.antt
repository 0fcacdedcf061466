-- ===== src/Realtime/Page/Laws.antt =====
-- What a page scan gathers.
use mathlib.Core.Path.{ap₂}
use webex_headless_messenger.Common.{
  String, ◌≡◌, refl, ◌⊎◌, inl, inr, Bool, true, false, ◌||◌, Option, some, List, [], ◌∷◌, map,
  eq_iff, contains, arith,
}
use webex_headless_messenger.Message.{Message}
use webex_headless_messenger.Realtime.Seen.{SeenMessageIds, seen_contains}
use webex_headless_messenger.Realtime.Seen.Laws.{IsNodup}
use webex_headless_messenger.Realtime.Seen.Order.{AreNew}
use webex_headless_messenger.Realtime.Page.{
  Collected, Scan, skip, known, stop, fresh_id, saw_known, push, scan, collect_page_messages,
}

-- The ids of messages.
abbrev pub ids_of : List Message → List (Option String)
ids_of = map (λ (m : Message). m.id)

-- The messages are those of the ids, where messages are emitted; there is none elsewhere.
abbrev pub Matches : Bool → List Message → List String → Type 0
Matches true fresh ids = ids_of fresh ≡ map some ids
Matches false fresh ids = fresh ≡ []

scan-fresh :
    (seen : SeenMessageIds) (initialized : Bool) (local_ids : List String) (m : Message)
    (id : String)
    → scan seen initialized local_ids m ≡ fresh_id id
    → (m.id ≡ some id) × (contains id seen.ids ≡ false) × (contains id local_ids ≡ false)
unfolding scan seen_contains
scan-fresh seen initialized local_ids m id h = ground arith

-- What the scan of a page adds to the ids of the call, `local_ids`.
pub record Gathers (seen : SeenMessageIds) (emits : Bool) (local_ids : List String) (c : Collected)
    : Type 0 where
  pub nodup : IsNodup c.new_ids
  pub new : AreNew c.new_ids seen.ids
  pub apart : AreNew c.new_ids local_ids
  pub matches : Matches emits c.fresh c.new_ids
  pub locals :
      (k : String) → contains k c.local_seen_ids ≡ (contains k c.new_ids || contains k local_ids)

Scan-cases :
    (s : Scan) → (s ≡ skip) ⊎ ((s ≡ known) ⊎ ((s ≡ stop) ⊎ ((id : String) × (s ≡ fresh_id id))))
Scan-cases skip = inl refl
Scan-cases known = inr (inl refl)
Scan-cases stop = inr (inr (inl refl))
Scan-cases (fresh_id id) = inr (inr (inr (id, refl)))

Matches-nil : (emits : Bool) → Matches emits [] []
Matches-nil true = refl
Matches-nil false = refl

saw_known-Gathers :
    {seen : SeenMessageIds} {emits : Bool} {local_ids : List String} (c : Collected)
    → Gathers seen emits local_ids c
    → Gathers seen emits local_ids (saw_known c)
saw_known-Gathers c g = record {
  nodup = g.nodup;
  new = g.new;
  apart = g.apart;
  matches = g.matches;
  locals = g.locals;
}

AreNew-tail :
    (x : String) (xs ys : List String) → AreNew xs (x ∷ ys) → AreNew xs ys × (contains x xs ≡ false)
AreNew-tail x [] ys h = (tt, refl)
AreNew-tail x (y ∷ xs) ys h =
    let (a, e) = AreNew-tail x xs ys h.1 in
    ((ground (arith, h.0), a), ground (arith, h.0, e, eq_iff x y, eq_iff y x))

push-Gathers :
    (seen : SeenMessageIds) (emits : Bool) (local_ids : List String) (id : String) (m : Message)
    (c : Collected)
    → m.id ≡ some id
    → contains id seen.ids ≡ false
    → contains id local_ids ≡ false
    → Gathers seen emits (id ∷ local_ids) c
    → Gathers seen emits local_ids (push emits id m c)
push-Gathers seen true local_ids id m c e f h g =
    let (a, b) = AreNew-tail id c.new_ids local_ids g.apart in
    record {
      nodup = (b, g.nodup);
      new = (f, g.new);
      apart = (h, a);
      matches = ap₂ ◌∷◌ e g.matches;
      locals = λ k. ground (arith, g.locals k);
    }
push-Gathers seen false local_ids id m c e f h g =
    let (a, b) = AreNew-tail id c.new_ids local_ids g.apart in
    record {
      nodup = (b, g.nodup);
      new = (f, g.new);
      apart = (h, a);
      matches = g.matches;
      locals = λ k. ground (arith, g.locals k);
    }

-- The scan of a page returns distinct ids, none of them seen and none in the given set, and adds them to
-- that set. The messages that it returns are those of the ids, in order, where messages are emitted;
-- elsewhere it returns none.
pub collect-Gathers :
    (seen : SeenMessageIds) (items : List Message) (initialized emit : Bool)
    (local_ids : List String)
    → Gathers seen
        (initialized || emit)
        local_ids
        (collect_page_messages seen items initialized emit local_ids)
unfolding collect_page_messages
collect-Gathers seen [] initialized emit local_ids = record {
  nodup = tt;
  new = tt;
  apart = tt;
  matches = Matches-nil (initialized || emit);
  locals = λ k. refl;
}
collect-Gathers seen (m ∷ rest) initialized emit local_ids =
    elim (Scan-cases (scan seen initialized local_ids m)) [
      | inl e ↦ rw (e, collect_page_messages) (collect-Gathers seen rest initialized emit local_ids)
      | inr (inl e) ↦
          rw (e, collect_page_messages)
            (saw_known-Gathers (collect_page_messages seen rest initialized emit local_ids)
              (collect-Gathers seen rest initialized emit local_ids))
      | inr (inr (inl e)) ↦
          rw (e, collect_page_messages)
            (record {
              nodup = tt;
              new = tt;
              apart = tt;
              matches = Matches-nil (initialized || emit);
              locals = λ k. refl;
            })
      | inr (inr (inr (id, e))) ↦
          let (p, q, r) = scan-fresh seen initialized local_ids m id e in
          rw (e, collect_page_messages)
            (push-Gathers seen (initialized || emit) local_ids id m
              (collect_page_messages seen rest initialized emit (id ∷ local_ids)) p q r
              (collect-Gathers seen rest initialized emit (id ∷ local_ids)))
    ]
