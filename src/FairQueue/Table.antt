-- ===== src/FairQueue/Table.antt =====
-- The containers under fair_queue.hpp: queues by key as an association list.
pub mod Updates
use dan.Common.{
  ℕ, ◌+◌, Bool, true, false, List, [], ◌∷◌, ◌++◌, Option, none, some, ◌==◌, if◌then◌else◌, length,
}

-- `std::erase(ready_, key)`
unfoldable pub remove_key : ℕ → List ℕ → List ℕ
remove_key key [] = []
remove_key key (k ∷ ks) = let rest = remove_key key ks in if k == key then rest else k ∷ rest

module _ {ℓ} {T : Type ℓ} where
  -- The queue of a key; a key that is missing has none.
  unfoldable pub items : ℕ → List (ℕ × List T) → List T
  items key [] = []
  items key ((k, vs) ∷ rest) = if k == key then vs else items key rest

  -- `queues_[key].push_back(value)`
  unfoldable pub append : ℕ → T → List (ℕ × List T) → List (ℕ × List T)
  append key v [] = (key, v ∷ []) ∷ []
  append key v ((k, vs) ∷ rest) =
      if k == key then (k, vs ++ v ∷ []) ∷ rest else (k, vs) ∷ append key v rest

  unfoldable pub replace : ℕ → List T → List (ℕ × List T) → List (ℕ × List T)
  replace key ws [] = []
  replace key ws ((k, vs) ∷ rest) =
      if k == key then (k, ws) ∷ rest else (k, vs) ∷ replace key ws rest

  unfoldable pub erase : ℕ → List (ℕ × List T) → List (ℕ × List T)
  erase key [] = []
  erase key ((k, vs) ∷ rest) = if k == key then rest else (k, vs) ∷ erase key rest

  -- The first item that the predicate takes, and the queue without it.
  unfoldable pub remove_item : (T → Bool) → List T → Option (T × List T)
  remove_item p [] = none
  remove_item p (v ∷ vs) = elim (p v) [
    | true ↦ some (v, vs)
    | false ↦ elim (remove_item p vs) [ none ↦ none | some (w, ws) ↦ some (w, v ∷ ws) ]
  ]

  unfoldable pub all_items : List (ℕ × List T) → List T
  all_items [] = []
  all_items ((k, vs) ∷ rest) = vs ++ all_items rest
