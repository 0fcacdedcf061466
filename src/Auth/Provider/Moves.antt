-- ===== src/Auth/Provider/Moves.antt =====
-- One turn of a call of `access_token` of src/auth.rs.
use webex_headless_messenger.Common.{
  ℕ, ◌+◌, ◌≤◌, ◌≡◌, ◌≢◌, ◌⊎◌, refl, sym, arith, String, Bool, true, false, Bool-cases, Option-cases,
  inl, inr, Option, none, some, if◌then◌else◌, missing_token, Result, ok, err, ok-injective,
  err-ne-ok, leb,
}
use webex_headless_messenger.Auth.{TokenSet, is_expiring_within}
use webex_headless_messenger.Auth.Provider.{
  Call, begun, waiting, locked, requesting, saving, finished, ProviderState, Turn, loads, acquires,
  answers, saves, unlocked, Refreshes, is_expiring, first_test, second_test, first_load,
  second_load, begin_refresh, keep_refresh_token, lock_turn, access_token,
}

-- How many locks a call holds, and how many are taken.
abbrev pub holds : Call → ℕ
holds begun = 0
holds waiting = 0
holds locked = 1
holds (requesting r t at) = 1
holds (saving t) = 1
holds (finished r) = 0

abbrev pub taken : ProviderState → ℕ
taken w = if w.refresh_lock then 1 else 0

abbrev pub CanRefresh : Option TokenSet → Type 0
CanRefresh none = ⊥
CanRefresh (some t) = t.refresh_token ≢ none

module _ (refreshes : Refreshes) where
  -- A request for new tokens is made with the refresh token of the stored tokens, which at the time of their
  -- load had expired or were within the skew of it; tokens that are to be saved have a refresh token.
  abbrev pub Agrees : Option TokenSet → Call → Type 0
  Agrees store begun = Unit
  Agrees store waiting = Unit
  Agrees store locked = Unit
  Agrees store (requesting r t at) =
      (store ≡ some t)
      × (t.refresh_token ≡ some r)
      × ((expires_at : ℕ) × (t.expires_at ≡ some expires_at)
          × (expires_at ≤ at + refreshes.refresh_skew))
  Agrees store (saving t) = t.refresh_token ≢ none
  Agrees store (finished r) = Unit

  pub record Moves (call : Call) (w : ProviderState) (moved : Call × ProviderState) : Type 0 where
    pub count : holds moved.0 + taken w ≡ holds call + taken moved.1
    pub agrees : Agrees moved.1.store moved.0
    pub kept : (moved.1.store ≡ w.store) ⊎ ((holds call ≡ 1) × CanRefresh moved.1.store)

  -- A call that ends and gives the lock back.
  gives_back :
      (call : Call) (r : Result String) (w : ProviderState)
      → holds call ≡ 1
      → holds call ≤ taken w
      → Moves call w (finished r, unlocked w)
  gives_back call r w one lock = record { count = ground arith; agrees = tt; kept = inl refl }

  first_test-Moves :
      (t : TokenSet) (w : ProviderState) (expiring : Result Bool)
      → Moves begun w (first_test refreshes t expiring, w)
  first_test-Moves t w (err e) = record { count = refl; agrees = tt; kept = inl refl }
  first_test-Moves t w (ok true) = record { count = refl; agrees = tt; kept = inl refl }
  first_test-Moves t w (ok false) = record { count = refl; agrees = tt; kept = inl refl }

  first_load-Moves :
      (now : ℕ) (store : Option TokenSet) (w : ProviderState)
      → Moves begun w (first_load refreshes now store, w)
  first_load-Moves now none w = record { count = refl; agrees = tt; kept = inl refl }
  first_load-Moves now (some t) w = first_test-Moves t w (is_expiring refreshes t now)

  expires_soon :
      (t : TokenSet) (now : ℕ)
      → is_expiring refreshes t now ≡ ok true
      → (expires_at : ℕ) × (t.expires_at ≡ some expires_at)
        × (expires_at ≤ now + refreshes.refresh_skew)
  unfolding is_expiring_within
  expires_soon t now h = elim (Option-cases t.expires_at) [
    | inl never ↦ cc (rw never at h)
    | inr (expires_at, e) ↦
        elim (Bool-cases (leb (now + refreshes.refresh_skew) refreshes.max_time)) [
          | inl held ↦
              (let soon = ok-injective (rw (e, held) at h) in (expires_at, e, ground arith))
          | inr over ↦ absurd (err-ne-ok (rw (e, over) at h))
        ]
  ]

  begin_refresh-Moves :
      (t : TokenSet) (r : Option String) (w : ProviderState) (now : ℕ)
      → 1 ≤ taken w
      → w.store ≡ some t
      → t.refresh_token ≡ r
      → is_expiring refreshes t now ≡ ok true
      → Moves locked w (begin_refresh refreshes t r now w)
  begin_refresh-Moves t none w now lock stored same expiring =
      gives_back locked (err missing_token) w refl lock
  begin_refresh-Moves t (some r) w now lock stored same expiring = record {
    count = refl;
    agrees = (stored, same, expires_soon t now expiring);
    kept = inl refl;
  }

  second_test-Moves :
      (t : TokenSet) (now : ℕ) (w : ProviderState) (expiring : Result Bool)
      → 1 ≤ taken w
      → w.store ≡ some t
      → is_expiring refreshes t now ≡ expiring
      → Moves locked w (second_test refreshes t now w expiring)
  second_test-Moves t now w (err x) lock stored e = gives_back locked (err x) w refl lock
  second_test-Moves t now w (ok true) lock stored e =
      begin_refresh-Moves t t.refresh_token w now lock stored refl e
  second_test-Moves t now w (ok false) lock stored e =
      gives_back locked (ok t.access_token) w refl lock

  second_load-Moves :
      (now : ℕ) (store : Option TokenSet) (w : ProviderState)
      → 1 ≤ taken w
      → w.store ≡ store
      → Moves locked w (second_load refreshes now store w)
  second_load-Moves now none w lock stored = gives_back locked (err missing_token) w refl lock
  second_load-Moves now (some t) w lock stored =
      second_test-Moves t now w (is_expiring refreshes t now) lock stored refl

  keep_refresh_token-CanRefresh :
      (r : String) (current refreshed : TokenSet)
      → (keep_refresh_token refreshes r current refreshed).refresh_token ≢ none
  keep_refresh_token-CanRefresh r current refreshed e =
      elim (Option-cases refreshed.refresh_token) [
        | inl nothing ↦ cc (rw nothing at e)
        | inr (new, given) ↦ cc (rw given at e)
      ]

  lock_turn-Moves :
      (lock : Bool) (w : ProviderState) (moved : Call × ProviderState)
      → w.refresh_lock ≡ lock
      → lock_turn refreshes lock w ≡ some moved
      → Moves waiting w moved
  lock_turn-Moves true w moved same h = cc
  lock_turn-Moves false w moved same h =
      let is_moved : (locked, record w { refresh_lock = true }) ≡ moved = cc in
      rw (sym is_moved) record { count = rw same refl; agrees = tt; kept = inl refl }

  moved_to :
      {call : Call} {w : ProviderState} (x moved : Call × ProviderState)
      → some x ≡ some moved
      → Moves call w x
      → Moves call w moved
  moved_to x moved h m = let same : x ≡ moved = cc in rw (sym same) m

  -- What every turn does.
  pub access_token-Moves :
      (turn : Turn) (call : Call) (w : ProviderState) (moved : Call × ProviderState)
      → holds call ≤ taken w
      → Agrees w.store call
      → access_token refreshes turn call w ≡ some moved
      → Moves call w moved
  unfolding access_token
  access_token-Moves (loads now none) begun w moved lock agree h =
      moved_to (first_load refreshes now w.store, w) moved h (first_load-Moves now w.store w)
  access_token-Moves (loads now (some e)) begun w moved lock agree h =
      moved_to (finished (err e), w) moved h (record { count = refl; agrees = tt; kept = inl refl })
  access_token-Moves acquires waiting w moved lock agree h =
      lock_turn-Moves w.refresh_lock w moved refl h
  access_token-Moves (loads now none) locked w moved lock agree h =
      moved_to (second_load refreshes now w.store w) moved h
        (second_load-Moves now w.store w lock refl)
  access_token-Moves (loads now (some e)) locked w moved lock agree h =
      moved_to (finished (err e), unlocked w) moved h (gives_back locked (err e) w refl lock)
  access_token-Moves (answers (ok s)) (requesting r t at) w moved lock agree h =
      moved_to (saving (keep_refresh_token refreshes r t s), w) moved h
        (record { count = refl; agrees = keep_refresh_token-CanRefresh r t s; kept = inl refl })
  access_token-Moves (answers (err e)) (requesting r t at) w moved lock agree h =
      moved_to (finished (err e), unlocked w) moved h
        (gives_back (requesting r t at) (err e) w refl lock)
  access_token-Moves (saves none) (saving s) w moved lock agree h =
      moved_to (finished (ok s.access_token), record { store = some s; refresh_lock = false }) moved
        h (record { count = ground arith; agrees = tt; kept = inr (refl, agree) })
  access_token-Moves (saves (some e)) (saving s) w moved lock agree h =
      moved_to (finished (err e), unlocked w) moved h (gives_back (saving s) (err e) w refl lock)
  access_token-Moves turn call w moved lock agree h = cc
