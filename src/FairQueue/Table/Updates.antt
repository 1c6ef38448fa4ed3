-- ===== src/FairQueue/Table/Updates.antt =====
-- What each update of the queue table does to the items of every key, to the number of items and
-- to the order of the table.
use dan.Common.{
  ℕ, ◌+◌, ◌≡◌, refl, Bool, true, false, ◌||◌, List, [], ◌∷◌, ◌++◌, ◌==◌, if◌then◌else◌, length,
  length-append, arith,
}
use dan.FairQueue.Table.{items, append, replace, erase, remove_key}

abbrev pub is_empty {ℓ} : {A : Type ℓ} → List A → Bool
is_empty [] = true
is_empty (x ∷ xs) = false

abbrev pub has : ℕ → List ℕ → Bool
has k [] = false
has k (x ∷ xs) = x == k || has k xs

abbrev pub Distinct : List ℕ → Type 0
Distinct [] = Unit
Distinct (x ∷ xs) = (has x xs ≡ false) × Distinct xs

pub has-append : (j : ℕ) (xs : List ℕ) (k : ℕ) → has j (xs ++ k ∷ []) ≡ (has j xs || k == j)
has-append j [] k = ground arith
has-append j (x ∷ xs) k = ground (arith, has-append j xs k)

pub append-Distinct :
    (xs : List ℕ) (k : ℕ) → Distinct xs → has k xs ≡ false → Distinct (xs ++ k ∷ [])
append-Distinct [] k d h = (refl, tt)
append-Distinct (x ∷ xs) k d h = ground (arith, has-append x xs k, append-Distinct xs k d.1)

pub has-remove_key :
    (j k : ℕ) (xs : List ℕ) → has j (remove_key k xs) ≡ (if k == j then false else has j xs)
unfolding remove_key
has-remove_key j k [] = ground arith
has-remove_key j k (x ∷ xs) = ground (arith, has-remove_key j k xs)

pub remove_key-Distinct : (k : ℕ) (xs : List ℕ) → Distinct xs → Distinct (remove_key k xs)
unfolding remove_key
remove_key-Distinct k [] d = tt
remove_key-Distinct k (x ∷ xs) d =
    ground (arith, has-remove_key x k xs, remove_key-Distinct k xs d.1)

module _ {ℓ} {T : Type ℓ} where
  abbrev pub total : List (ℕ × List T) → ℕ
  total [] = 0
  total ((k, vs) ∷ rest) = length vs + total rest

  -- No key stands twice, and no queue is empty.
  abbrev pub IsTable : List (ℕ × List T) → Type ℓ
  IsTable [] = Unit
  IsTable ((k, vs) ∷ rest) = (is_empty vs ≡ false) × (items k rest ≡ []) × IsTable rest

  pub items-append :
      (j k : ℕ) (v : T) (qs : List (ℕ × List T))
      → items j (append k v qs) ≡ (if k == j then items k qs ++ v ∷ [] else items j qs)
  unfolding items append
  items-append j k v [] = ground arith
  items-append j k v ((i, vs) ∷ rest) = ground (arith, items-append j k v rest)

  pub append-IsTable :
      (k : ℕ) (v : T) (qs : List (ℕ × List T)) → IsTable qs → IsTable (append k v qs)
  unfolding items append
  append-IsTable k v [] t = (refl, refl, tt)
  append-IsTable k v ((i, []) ∷ rest) t = cc (t.0)
  append-IsTable k v ((i, w ∷ vs) ∷ rest) t =
      ground (arith, items-append i k v rest, append-IsTable k v rest t.2)

  pub total-append : (k : ℕ) (v : T) (qs : List (ℕ × List T)) → total (append k v qs) ≡ total qs + 1
  unfolding append
  total-append k v [] = omega arith
  total-append k v ((i, vs) ∷ rest) =
      ground (arith, length-append vs (v ∷ []), total-append k v rest)

  pub items-replace :
      (j k : ℕ) (ws : List T) (qs : List (ℕ × List T))
      → is_empty (items k qs) ≡ false
      → items j (replace k ws qs) ≡ (if k == j then ws else items j qs)
  unfolding items replace
  items-replace j k ws [] h = cc
  items-replace j k ws ((i, vs) ∷ rest) h = ground (arith, items-replace j k ws rest)

  pub replace-IsTable :
      (k : ℕ) (w : T) (ws : List T) (qs : List (ℕ × List T))
      → is_empty (items k qs) ≡ false
      → IsTable qs
      → IsTable (replace k (w ∷ ws) qs)
  unfolding items replace
  replace-IsTable k w ws [] h t = tt
  replace-IsTable k w ws ((i, vs) ∷ rest) h t =
      ground (arith, items-replace i k (w ∷ ws) rest, replace-IsTable k w ws rest)

  pub total-replace :
      (k : ℕ) (v : T) (vs : List T) (qs : List (ℕ × List T))
      → items k qs ≡ v ∷ vs
      → total (replace k vs qs) + 1 ≡ total qs
  unfolding items replace
  total-replace k v vs [] h = cc
  total-replace k v vs ((i, us) ∷ rest) h = ground (arith, total-replace k v vs rest)

  pub items-erase :
      (j k : ℕ) (qs : List (ℕ × List T))
      → IsTable qs
      → items j (erase k qs) ≡ (if k == j then [] else items j qs)
  unfolding items erase
  items-erase j k [] t = ground arith
  items-erase j k ((i, vs) ∷ rest) t = ground (arith, items-erase j k rest t.2)

  pub erase-IsTable : (k : ℕ) (qs : List (ℕ × List T)) → IsTable qs → IsTable (erase k qs)
  unfolding items erase
  erase-IsTable k [] t = tt
  erase-IsTable k ((i, vs) ∷ rest) t =
      ground (arith, items-erase i k rest t.2, erase-IsTable k rest t.2)

  pub total-erase :
      (k : ℕ) (v : T) (qs : List (ℕ × List T))
      → items k qs ≡ v ∷ []
      → total (erase k qs) + 1 ≡ total qs
  unfolding items erase
  total-erase k v [] h = cc
  total-erase k v ((i, us) ∷ rest) h = ground (arith, total-erase k v rest)
