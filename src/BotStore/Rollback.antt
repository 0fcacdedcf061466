-- ===== src/BotStore/Rollback.antt =====
-- A failed write of the bot's file.
use webex_headless_messenger.Common.{
  ℕ, String, ◌≡◌, refl, sym, ap, ◌∙◌, ◌⊎◌, inl, inr, [], ◌∷◌, Error, err, err-ne-ok,
}
use webex_headless_messenger.Common.OrderedMap.{remove}
use webex_headless_messenger.BotStore.{
  StringSet, ProcessedMessageStore, Bot, absorb_loop, absorb_volatile_ids, persist, release,
  FileWrite, succeeds, fails, fails_after_replace, write_state, released, or_unreleased, or_restore,
  completed, complete_at, prune_expired_attempts, add_processed_id,
}

absorb_loop-max_ids :
    (ids : StringSet) (s : ProcessedMessageStore) → (absorb_loop ids s).max_ids ≡ s.max_ids
unfolding absorb_loop
absorb_loop-max_ids [] s = refl
absorb_loop-max_ids ((id, _) ∷ ids) s =
    let (new_ids, order) = add_processed_id s.ids s.order s.max_ids id in
    absorb_loop-max_ids ids (record s {
      ids = new_ids;
      order = order;
      inflight = remove id s.inflight;
      attempts = remove id s.attempts;
    })

abbrev with_max : ProcessedMessageStore → ℕ → ProcessedMessageStore
with_max s n = record s { max_ids = n }

absorbed-max_ids : (s : ProcessedMessageStore) → (absorb_volatile_ids s).max_ids ≡ s.max_ids
unfolding absorb_volatile_ids
absorbed-max_ids s = absorb_loop-max_ids s.volatile_ids (record s { volatile_ids = [] })

-- The bot whose next write succeeds.
abbrev pub with_success : Bot → Bot
with_success w = record w { next_write = succeeds }

-- What an operation that fails leaves: the store as it was, and the file as it was or as the operation leaves
-- it where it succeeds.
abbrev pub IsUndone : Bot → Bot → Bot → Type 0
IsUndone w w' succeeded = (w'.store ≡ w.store) × ((w'.file ≡ w.file) ⊎ (w'.file ≡ succeeded.file))

or_restore-IsUndone :
    (n : FileWrite) (w : Bot) (s : ProcessedMessageStore) (e : Error) (w' : Bot)
    → s.max_ids ≡ w.store.max_ids
    → or_restore w.store (write_state n w s (absorb_volatile_ids s)) ≡ (err e, w')
    → IsUndone w w'
        (or_restore w.store (write_state succeeds (with_success w) s (absorb_volatile_ids s))).1
or_restore-IsUndone succeeds w s e w' same h = absurd (err-ne-ok (ap (λ z. z.0) (sym h)))
or_restore-IsUndone fails w s e w' same h = (
  ap (λ z. z.1.store) (sym h) ∙ ap (with_max w.store) (absorbed-max_ids s ∙ same),
  inl (ap (λ z. z.1.file) (sym h)),
)
or_restore-IsUndone fails_after_replace w s e w' same h = (
  ap (λ z. z.1.store) (sym h) ∙ ap (with_max w.store) (absorbed-max_ids s ∙ same),
  inr (ap (λ z. z.1.file) (sym h)),
)

or_unreleased-IsUndone :
    (n : FileWrite) (w : Bot) (id : String) (e : Error) (w' : Bot)
    → let s = released w.store id in
      or_unreleased w.store (write_state n w s (absorb_volatile_ids s)) ≡ (err e, w')
      → IsUndone w w'
          (or_unreleased w.store
            (write_state succeeds (with_success w) s (absorb_volatile_ids s))).1
or_unreleased-IsUndone succeeds w id e w' h = absurd (err-ne-ok (ap (λ z. z.0) (sym h)))
or_unreleased-IsUndone fails w id e w' h = (
  ap (λ z. z.1.store) (sym h) ∙ ap (with_max w.store) (absorbed-max_ids (released w.store id)),
  inl (ap (λ z. z.1.file) (sym h)),
)
or_unreleased-IsUndone fails_after_replace w id e w' h = (
  ap (λ z. z.1.store) (sym h) ∙ ap (with_max w.store) (absorbed-max_ids (released w.store id)),
  inr (ap (λ z. z.1.file) (sym h)),
)

-- If `complete_at` returns an error, the store is as it was, and the file is as it was or, where the error
-- comes after the new file has taken its place, as a `complete_at` that succeeds leaves it.
pub complete_at-error :
    (w : Bot) (id : String) (now : ℕ) (e : Error) (w' : Bot)
    → complete_at w id now ≡ (err e, w')
    → IsUndone w w' (complete_at (with_success w) id now).1
unfolding complete_at completed prune_expired_attempts persist
complete_at-error w id now e w' h =
    or_restore-IsUndone w.next_write w (completed w.store id now) e w' refl h

-- If `release` returns an error, the store is as it was, and the file is as it was or, where the error comes
-- after the new file has taken its place, as a `release` that succeeds leaves it.
pub release-error :
    (w : Bot) (id : String) (e : Error) (w' : Bot)
    → release w id ≡ (err e, w')
    → IsUndone w w' (release (with_success w) id).1
unfolding release persist
release-error w id e w' h = or_unreleased-IsUndone w.next_write w id e w' h
