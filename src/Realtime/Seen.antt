-- ===== src/Realtime/Seen.antt =====
-- src/realtime.rs: `SeenMessageIds`, the bounded memory of message ids. A `HashSet` is the list of its
-- elements, which nothing reads in order.
pub mod Laws
pub mod Order
use webex_headless_messenger.Common.{
  ℕ, zero, suc, ◌<◌, String, Bool, true, false, Option, none, some, List, [], ◌∷◌, length, reverse,
  max, ltb, contains, str_eq, if◌then◌else◌,
}

-- `HashSet::remove`.
unfoldable pub set_remove : String → List String → List String
set_remove id [] = []
set_remove id (x ∷ xs) = let rest = set_remove id xs in if str_eq x id then rest else x ∷ rest

-- `order` has the newest id first.
pub record SeenMessageIds : Type 0 where
  pub ids : List String
  pub order : List String

abbrev pub default_seen : SeenMessageIds
default_seen = record { ids = []; order = [] }

-- `SeenMessageIds::contains`.
unfoldable pub seen_contains : SeenMessageIds → String → Bool
seen_contains seen id = contains id seen.ids

-- `VecDeque::pop_back`.
unfoldable pub pop_back : List String → Option (String × List String)
pop_back [] = none
pop_back (x ∷ xs) = elim (pop_back xs) [
  | none ↦ some (x, [])
  | some (last, rest) ↦ some (last, x ∷ rest)
]

-- The `while` loop of `truncate`. A round takes an element off `order`, so `length order` rounds are
-- enough.
unfoldable pub truncate_loop : ℕ → ℕ → SeenMessageIds → SeenMessageIds
truncate_loop zero max_ids seen = seen
truncate_loop (suc rounds) max_ids seen = elim (ltb max_ids (length seen.ids)) [
  | false ↦ seen
  | true ↦ elim (pop_back seen.order) [
    | none ↦ seen
    | some (stale, order) ↦
        truncate_loop rounds max_ids (record { ids = set_remove stale seen.ids; order = order })
  ]
]

unfoldable pub truncate : SeenMessageIds → ℕ → SeenMessageIds
unfolding truncate_loop
truncate seen max_ids = truncate_loop (suc (length seen.order)) (max max_ids 1) seen

-- `if self.ids.insert(id) { self.order.push_front(id) }`.
unfoldable pub insert_newest : SeenMessageIds → String → SeenMessageIds
insert_newest seen id =
    if contains id seen.ids then seen else record { ids = id ∷ seen.ids; order = id ∷ seen.order }

-- The `for` loop over the reversed ids.
unfoldable pub remember_loop : ℕ → SeenMessageIds → List String → SeenMessageIds
remember_loop max_ids seen [] = seen
remember_loop max_ids seen (id ∷ ids) =
    remember_loop max_ids (truncate (insert_newest seen id) max_ids) ids

unfoldable pub remember_newest_first : SeenMessageIds → List String → ℕ → SeenMessageIds
unfolding remember_loop
remember_newest_first seen ids max_ids = remember_loop (max max_ids 1) seen (reverse ids)
