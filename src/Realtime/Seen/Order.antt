-- ===== src/Realtime/Seen/Order.antt =====
-- What `remember_newest_first` leaves in the queue.
use mathlib.Core.List.{reverse-cons}
use webex_headless_messenger.Common.{
  length-take, ℕ, zero, suc, ◌≤◌, ◌<◌, String, ◌≡◌, refl, sym, ap, ◌∙◌, false, List, [], ◌∷◌, ◌++◌,
  length, take, take-of_le, max, arith, contains, All, reverse,
}
use webex_headless_messenger.Realtime.Seen.{
  SeenMessageIds, truncate, insert_newest, remember_loop, remember_newest_first,
}
use webex_headless_messenger.Realtime.Seen.Laws.{
  IsNodup, IsValid, truncate_lem, insert_newest-IsValid, contains-append,
}

remember_loop-snoc :
    (m : ℕ) (seen : SeenMessageIds) (xs : List String) (x : String)
    → remember_loop m seen (xs ++ x ∷ []) ≡ truncate (insert_newest (remember_loop m seen xs) x) m
unfolding remember_loop
remember_loop-snoc m seen [] x = refl
remember_loop-snoc m seen (y ∷ xs) x = remember_loop-snoc m (truncate (insert_newest seen y) m) xs x

remember_loop-IsValid :
    (m : ℕ) (seen : SeenMessageIds) (xs : List String)
    → IsValid seen
    → IsValid (remember_loop m seen xs)
unfolding remember_loop
remember_loop-IsValid m seen [] v = v
remember_loop-IsValid m seen (x ∷ xs) v =
    remember_loop-IsValid m (truncate (insert_newest seen x) m) xs
      (truncate_lem (insert_newest seen x) m (insert_newest-IsValid seen x v)).0

-- Remembering keeps the set and the queue in step.
pub remember_newest_first-IsValid :
    (seen : SeenMessageIds) (ids : List String) (max_ids : ℕ)
    → IsValid seen
    → IsValid (remember_newest_first seen ids max_ids)
unfolding remember_newest_first
remember_newest_first-IsValid seen ids max_ids v =
    remember_loop-IsValid (max max_ids 1) seen (reverse ids) v

remember_loop_bounded :
    (m : ℕ) (seen : SeenMessageIds) (xs : List String)
    → 0 < m
    → IsValid seen
    → length seen.order ≤ m
    → length (remember_loop m seen xs).order ≤ m
unfolding remember_loop
remember_loop_bounded m seen [] pos v h = h
remember_loop_bounded m seen (x ∷ xs) pos v h =
    let (v', e) = truncate_lem (insert_newest seen x) m (insert_newest-IsValid seen x v) in
    remember_loop_bounded m (truncate (insert_newest seen x) m) xs pos v'
      (omega (arith, ap length e, length-take (max m 1) (insert_newest seen x).order))

-- Whatever ids are remembered, the bound is kept.
pub remember_newest_first_bounded :
    (seen : SeenMessageIds) (ids : List String) (max_ids : ℕ)
    → IsValid seen
    → length seen.order ≤ max max_ids 1
    → length (remember_newest_first seen ids max_ids).order ≤ max max_ids 1
unfolding remember_newest_first
remember_newest_first_bounded seen ids max_ids v h =
    remember_loop_bounded (max max_ids 1) seen (reverse ids) (omega arith) v h

contains-take :
    (k : String) (n : ℕ) (xs : List String) → contains k xs ≡ false → contains k (take n xs) ≡ false
contains-take k zero xs h = refl
contains-take k (suc n) [] h = refl
contains-take k (suc n) (x ∷ xs) h = ground (arith, contains-take k n xs)

take_cons-take :
    (m : ℕ) (x : String) (xs : List String) → 0 < m → take m (x ∷ take m xs) ≡ take m (x ∷ xs)
take_cons-take zero x xs h = absurd (omega arith)
take_cons-take (suc m) x xs h = ap (◌∷◌ x) (take-take m xs)
  where
    take-take : (n : ℕ) (ys : List String) → take n (take (suc n) ys) ≡ take n ys
    take-take zero ys = refl
    take-take (suc n) [] = refl
    take-take (suc n) (y ∷ ys) = ap (◌∷◌ y) (take-take n ys)

insert_newest-new :
    (seen : SeenMessageIds) (x : String)
    → contains x seen.ids ≡ false
    → (insert_newest seen x).order ≡ x ∷ seen.order
unfolding insert_newest
insert_newest-new seen x h = rw h

remember_step :
    (m : ℕ) (seen : SeenMessageIds) (x : String) (xs : List String)
    → 0 < m
    → IsValid seen
    → seen.order ≡ take m xs
    → contains x xs ≡ false
    → (truncate (insert_newest seen x) m).order ≡ take m (x ∷ xs)
remember_step m seen x xs pos v e h =
    let f : contains x seen.ids ≡ false =
      v.same_ids x ∙ ap (contains x) e ∙ contains-take x m xs h in
    let g : (insert_newest seen x).order ≡ x ∷ take m xs =
      insert_newest-new seen x f ∙ ap (◌∷◌ x) e in
    let q : max m 1 ≡ m = omega arith in
    (truncate_lem (insert_newest seen x) m (insert_newest-IsValid seen x v)).1
    ∙ ap (λ n. take n (insert_newest seen x).order) q
    ∙ ap (take m) g
    ∙ take_cons-take m x xs pos

-- The ids are new: none of them is in the list.
abbrev pub AreNew : List String → List String → Type 0
AreNew xs ys = All (λ x. contains x ys ≡ false) xs

remember_reverse :
    (m : ℕ) (seen : SeenMessageIds) (ids : List String)
    → 0 < m
    → IsValid seen
    → length seen.order ≤ m
    → IsNodup ids
    → AreNew ids seen.order
    → (remember_loop m seen (reverse ids)).order ≡ take m (ids ++ seen.order)
remember_reverse m seen [] pos v len n a = unfold remember_loop in sym (take-of_le m seen.order len)
remember_reverse m seen (x ∷ ids) pos v len n a =
    ap (λ l. (remember_loop m seen l).order) (reverse-cons x ids)
    ∙ ap (λ (z : SeenMessageIds). z.order) (remember_loop-snoc m seen (reverse ids) x)
    ∙ remember_step m (remember_loop m seen (reverse ids)) x (ids ++ seen.order) pos
        (remember_loop-IsValid m seen (reverse ids) v)
        (remember_reverse m seen ids pos v len n.1 a.1)
        (contains-append x ids seen.order ∙ ground (arith, n.0, a.0))

-- Let the memory be valid and within its bound, and let the ids be new and distinct. Remembering them
-- leaves the newest of them and of the old ids, in order, as many as the bound allows, which is at least
-- one.
pub order-remember_newest_first :
    (seen : SeenMessageIds) (ids : List String) (max_ids : ℕ)
    → IsValid seen
    → length seen.order ≤ max max_ids 1
    → IsNodup ids
    → AreNew ids seen.order
    → (remember_newest_first seen ids max_ids).order ≡ take (max max_ids 1) (ids ++ seen.order)
unfolding remember_newest_first
order-remember_newest_first seen ids max_ids v len n a =
    remember_reverse (max max_ids 1) seen ids (omega arith) v len n a
