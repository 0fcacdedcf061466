-- ===== src/Auth/Provider/Safe.antt =====
-- All turns of all calls of `access_token` of src/auth.rs.
use mathlib.Core.Path.{subst}
use webex_headless_messenger.Common.{
  ℕ, ◌+◌, ◌≤◌, ◌≡◌, refl, sym, arith, inl, inr, Option, List, [], ◌∷◌, ◌++◌, All,
}
use webex_headless_messenger.Auth.{TokenSet}
use webex_headless_messenger.Auth.Provider.{
  Call, begun, waiting, locked, requesting, saving, finished, ProviderState, Refreshes, Reachable,
  started, turned,
}
use webex_headless_messenger.Auth.Provider.Moves.{
  holds, taken, CanRefresh, Agrees, Moves, access_token-Moves,
}

module _ {A : Type 0} (P : A → Type 0) where
  All-before : (xs ys : List A) → All P (xs ++ ys) → All P xs
  All-before [] ys h = tt
  All-before (x ∷ xs) ys h = (h.0, All-before xs ys h.1)

  All-after : (xs ys : List A) → All P (xs ++ ys) → All P ys
  All-after [] ys h = h
  All-after (x ∷ xs) ys h = All-after xs ys h.1

  All-join : (xs ys : List A) → All P xs → All P ys → All P (xs ++ ys)
  All-join [] ys h k = k
  All-join (x ∷ xs) ys h k = (h.0, All-join xs ys h.1 k)

-- The locks that all calls hold.
abbrev pub holders : List Call → ℕ
holders [] = 0
holders (call ∷ calls) = holds call + holders calls

holders-append :
    (before : List Call) (call : Call) (after : List Call)
    → holders (before ++ call ∷ after) ≡ holders before + (holds call + holders after)
holders-append [] call after = omega arith
holders-append (c ∷ before) call after = let rest = holders-append before call after in omega arith

taken_bound : (w : ProviderState) → taken w ≤ 1
taken_bound w = ground arith

-- The requests for new tokens that are under way.
abbrev pub requests : List Call → ℕ
requests [] = 0
requests (requesting r t at ∷ calls) = 1 + requests calls
requests (begun ∷ calls) = requests calls
requests (waiting ∷ calls) = requests calls
requests (locked ∷ calls) = requests calls
requests (saving t ∷ calls) = requests calls
requests (finished r ∷ calls) = requests calls

requests_bound : (calls : List Call) → requests calls ≤ holders calls
requests_bound [] = omega arith
requests_bound (requesting r t at ∷ calls) = let rest = requests_bound calls in omega arith
requests_bound (begun ∷ calls) = let rest = requests_bound calls in omega arith
requests_bound (waiting ∷ calls) = let rest = requests_bound calls in omega arith
requests_bound (locked ∷ calls) = let rest = requests_bound calls in omega arith
requests_bound (saving t ∷ calls) = let rest = requests_bound calls in omega arith
requests_bound (finished r ∷ calls) = let rest = requests_bound calls in omega arith

module _ (refreshes : Refreshes) where
  -- The invariant of the provider.
  record Sound (calls : List Call) (w : ProviderState) : Type 0 where
    count : holders calls ≡ taken w
    agree : All (Agrees refreshes w.store) calls

  -- A call without the lock agrees with every store.
  agree_with :
      (store store' : Option TokenSet) (call : Call)
      → holds call ≡ 0
      → Agrees refreshes store call
      → Agrees refreshes store' call
  agree_with store store' begun h a = tt
  agree_with store store' waiting h a = tt
  agree_with store store' locked h a = tt
  agree_with store store' (requesting r t at) h a = absurd (omega arith)
  agree_with store store' (saving t) h a = a
  agree_with store store' (finished r) h a = tt

  All-agree_with :
      (store store' : Option TokenSet) (calls : List Call)
      → holders calls ≡ 0
      → All (Agrees refreshes store) calls
      → All (Agrees refreshes store') calls
  All-agree_with store store' [] h a = tt
  All-agree_with store store' (call ∷ calls) h a = (
    agree_with store store' call (omega arith) a.0,
    All-agree_with store store' calls (omega arith) a.1,
  )

  started_sound :
      (start : Option TokenSet) (calls : List Call)
      → All (λ call. call ≡ begun) calls
      → (holders calls ≡ 0) × All (Agrees refreshes start) calls
  started_sound start [] h = (refl, tt)
  started_sound start (call ∷ calls) h =
      let (none_held, agree) = started_sound start calls h.1 in
      (rw h.0 omega arith, (rw h.0 tt, agree))

  turned-Sound :
      (before after : List Call) (call call' : Call) (w w' : ProviderState)
      → Sound (before ++ call ∷ after) w
      → (Agrees refreshes w.store call → holds call ≤ taken w → Moves refreshes call w (call', w'))
      → Sound (before ++ call' ∷ after) w'
  turned-Sound before after call call' w w' s move =
      let all_held = holders-append before call after in
      let now_held = holders-append before call' after in
      let total = s.count in
      let agree_before = All-before (Agrees refreshes w.store) before (call ∷ after) s.agree in
      let agree_rest = All-after (Agrees refreshes w.store) before (call ∷ after) s.agree in
      let m = move agree_rest.0 (omega arith) in
      let balance = m.count in
      record {
        count = omega arith;
        agree = elim m.kept [
          | inl same ↦
              All-join (Agrees refreshes w'.store) before (call' ∷ after)
                (subst (λ store. All (Agrees refreshes store) before) (sym same) agree_before)
                (
                  m.agrees,
                  subst (λ store. All (Agrees refreshes store) after) (sym same) agree_rest.1,
                )
          | inr (one, _) ↦
              (let bound = taken_bound w in
                All-join (Agrees refreshes w'.store) before (call' ∷ after)
                  (All-agree_with w.store w'.store before (omega arith) agree_before)
                  (m.agrees, All-agree_with w.store w'.store after (omega arith) agree_rest.1))
        ];
      }

  Reachable-Sound :
      (start : Option TokenSet) (calls : List Call) (w : ProviderState)
      → Reachable refreshes start calls w
      → Sound calls w
  Reachable-Sound start calls w (started begun_calls begins) =
      let (none_held, agree) = started_sound start begun_calls begins in
      record { count = none_held; agree = agree }
  Reachable-Sound start calls w (turned before after call call' w0 w' turn reach step) =
      turned-Sound before after call call' w0 w'
        (Reachable-Sound start (before ++ call ∷ after) w0 reach)
        (λ agree lock. access_token-Moves refreshes turn call w0 (call', w') lock agree step)

  moved_store :
      (before after : List Call) (call : Call) (w w' : ProviderState) (moved : Call)
      → Sound (before ++ call ∷ after) w
      → CanRefresh w.store
      → (Agrees refreshes w.store call → holds call ≤ taken w → Moves refreshes call w (moved, w'))
      → CanRefresh w'.store
  moved_store before after call w w' moved s can move =
      let all_held = holders-append before call after in
      let total = s.count in
      let agree_rest = All-after (Agrees refreshes w.store) before (call ∷ after) s.agree in
      let m = move agree_rest.0 (omega arith) in
      elim m.kept [ inl same ↦ subst CanRefresh (sym same) can | inr (_, given) ↦ given ]

  -- Whatever the turns of however many calls of `access_token`, at most one of them has a request for new
  -- tokens under way, and it makes it with the refresh token of the tokens that the store still holds, whose
  -- expiry is at most the skew after the time at which it loaded them under the lock.
  pub access_token-Agrees :
      (start : Option TokenSet) (calls : List Call) (w : ProviderState)
      → Reachable refreshes start calls w
      → (requests calls ≤ 1) × All (Agrees refreshes w.store) calls
  access_token-Agrees start calls w reach =
      let s = Reachable-Sound start calls w reach in
      let total = s.count in
      let one = taken_bound w in let within = requests_bound calls in (omega arith, s.agree)

  -- A store that holds tokens with a refresh token never loses it: after any turns of any calls of
  -- `access_token`, whatever the server answers and whichever loads and saves fail, it holds tokens with a
  -- refresh token.
  pub access_token-CanRefresh :
      (start : Option TokenSet) (calls : List Call) (w : ProviderState)
      → CanRefresh start
      → Reachable refreshes start calls w
      → CanRefresh w.store
  access_token-CanRefresh start calls w can (started begun_calls begins) = can
  access_token-CanRefresh start calls w can (turned before after call call' w0 w' turn reach step) =
      moved_store before after call w0 w' call'
        (Reachable-Sound start (before ++ call ∷ after) w0 reach)
        (access_token-CanRefresh start (before ++ call ∷ after) w0 can reach)
        (λ agree lock. access_token-Moves refreshes turn call w0 (call', w') lock agree step)
