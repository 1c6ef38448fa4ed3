-- ===== src/Measurement/Speeds/Table.antt =====
-- measurement.hpp, SpeedTable: the table stays small and has one record per key.
use dan.Common.{
  ℕ, suc, ◌≤◌, ◌≡◌, ◌⊎◌, inl, inr, refl, ap, Bool, true, false, not, ◌&&◌, List, [], ◌∷◌, ◌++◌,
  Option, none, some, leb, ℤ, length, arith, Bool-cases,
}
use dan.Common.Double.{Doubles}
use dan.Measurement.{SpeedKey, SpeedRecord, key_eq, max_speed_records}
use dan.Measurement.Speeds.{
  find_record, replace_record, erase_oldest, erase_min, make_room, store, add_record, fold_samples,
  is_nonsense, observe,
}

-- No key of the list is `key`.
abbrev differs : SpeedKey → List SpeedKey → Bool
differs key [] = true
differs key (k ∷ ks) = not (key_eq k key) && differs key ks

abbrev is_other : SpeedKey → List SpeedKey → Bool
is_other key [] = true
is_other key (k ∷ ks) = not (key_eq key k) && is_other key ks

abbrev are_distinct : List SpeedKey → Bool
are_distinct [] = true
are_distinct (k ∷ ks) = is_other k ks && are_distinct ks

is_other-append :
    (k key : SpeedKey) (ks : List SpeedKey)
    → is_other k ks ≡ true
    → key_eq k key ≡ false
    → is_other k (ks ++ key ∷ []) ≡ true
is_other-append k key [] h ne = rw ne refl
is_other-append k key (x ∷ ks) h ne = ground (arith, is_other-append k key ks)

append-are_distinct :
    (key : SpeedKey) (ks : List SpeedKey)
    → are_distinct ks ≡ true
    → differs key ks ≡ true
    → are_distinct (ks ++ key ∷ []) ≡ true
append-are_distinct key [] h o = refl
append-are_distinct key (k ∷ ks) h o =
    ground (arith, append-are_distinct key ks, is_other-append k key ks)

length-append_one : {A : Type 0} (x : A) (xs : List A) → length (xs ++ x ∷ []) ≡ suc (length xs)
length-append_one x [] = refl
length-append_one x (y ∷ xs) = ap suc (length-append_one x xs)

module _ (d : Doubles) where
  abbrev pub keys : List (SpeedRecord d) → List SpeedKey
  keys [] = []
  keys (r ∷ rs) = r.key ∷ keys rs

  keys-append :
      (rs : List (SpeedRecord d)) (r : SpeedRecord d) → keys (rs ++ r ∷ []) ≡ keys rs ++ r.key ∷ []
  keys-append [] r = refl
  keys-append (s ∷ rs) r = ap (λ ks. s.key ∷ ks) (keys-append rs r)

  find-differs :
      (key : SpeedKey) (rs : List (SpeedRecord d))
      → find_record d key rs ≡ none
      → differs key (keys rs) ≡ true
  find-differs key [] h = refl
  find-differs key (r ∷ rs) h = ground (arith, find-differs key rs)

  -- The table behind its bounds.
  pub record IsTable (rs : List (SpeedRecord d)) : Type 0 where
    pub small : length rs ≤ max_speed_records
    pub once : are_distinct (keys rs) ≡ true

  erase-cases :
      (r : SpeedRecord d) (rs : List (SpeedRecord d))
      → (erase_min d (r ∷ rs) ≡ rs) ⊎ (erase_min d (r ∷ rs) ≡ r ∷ erase_min d rs)
  unfolding erase_min erase_oldest
  erase-cases r [] = inl refl
  erase-cases r (s ∷ rs) = ground arith

  erase_one : (r : SpeedRecord d) → erase_min d (r ∷ []) ≡ []
  unfolding erase_min erase_oldest
  erase_one r = refl

  erase_nothing : erase_min d [] ≡ []
  unfolding erase_min erase_oldest
  erase_nothing = refl

  length-erase_min :
      (r : SpeedRecord d) (rs : List (SpeedRecord d))
      → suc (length (erase_min d (r ∷ rs))) ≡ length (r ∷ rs)
  length-erase_min r [] = rw (erase_one r) refl
  length-erase_min r (s ∷ rs) = elim (erase-cases r (s ∷ rs)) [
    | inl e ↦ rw e refl
    | inr e ↦ rw e (ap suc (length-erase_min s rs))
  ]

  differs-erase_min :
      (key : SpeedKey) (rs : List (SpeedRecord d))
      → differs key (keys rs) ≡ true
      → differs key (keys (erase_min d rs)) ≡ true
  differs-erase_min key [] h = rw erase_nothing refl
  differs-erase_min key (r ∷ rs) h = elim (erase-cases r rs) [
    | inl e ↦ rw e (ground arith)
    | inr e ↦ rw e (ground (arith, differs-erase_min key rs))
  ]

  is_other-erase_min :
      (key : SpeedKey) (rs : List (SpeedRecord d))
      → is_other key (keys rs) ≡ true
      → is_other key (keys (erase_min d rs)) ≡ true
  is_other-erase_min key [] h = rw erase_nothing refl
  is_other-erase_min key (r ∷ rs) h = elim (erase-cases r rs) [
    | inl e ↦ rw e (ground arith)
    | inr e ↦ rw e (ground (arith, is_other-erase_min key rs))
  ]

  are_distinct-erase_min :
      (rs : List (SpeedRecord d))
      → are_distinct (keys rs) ≡ true
      → are_distinct (keys (erase_min d rs)) ≡ true
  are_distinct-erase_min [] h = rw erase_nothing refl
  are_distinct-erase_min (r ∷ rs) h = elim (erase-cases r rs) [
    | inl e ↦ rw e (ground arith)
    | inr e ↦ rw e (ground (arith, is_other-erase_min r.key rs, are_distinct-erase_min rs))
  ]

  keys-replace_record :
      (key : SpeedKey) (old new : SpeedRecord d) (rs : List (SpeedRecord d))
      → find_record d key rs ≡ some old
      → new.key ≡ old.key
      → keys (replace_record d key new rs) ≡ keys rs
  unfolding replace_record
  keys-replace_record key old new [] f e = refl
  keys-replace_record key old new (r ∷ rs) f e = elim (Bool-cases (key_eq r.key key)) [
    | inl same ↦ rw same (ground (arith, f, same, e))
    | inr other ↦
        rw other (ap (λ ks. r.key ∷ ks) (keys-replace_record key old new rs (rw other at f) e))
  ]

  make_room-IsTable :
      (rs : List (SpeedRecord d)) → IsTable rs → suc (length (make_room d rs)) ≤ max_speed_records
  make_room-IsTable [] t = omega arith
  make_room-IsTable (r ∷ rs) t = elim (Bool-cases (leb max_speed_records (length (r ∷ rs)))) [
    | inl e ↦ rw e (rw (length-erase_min r rs) t.small)
    | inr e ↦ rw e (ground (arith, e))
  ]

  -- A new key behind the others.
  append-IsTable :
      (rs : List (SpeedRecord d)) (r : SpeedRecord d)
      → IsTable rs
      → find_record d r.key rs ≡ none
      → IsTable (make_room d rs ++ r ∷ [])
  append-IsTable rs r t f = record {
    small = rw (length-append_one r (make_room d rs)) (make_room-IsTable rs t);
    once = rw (keys-append (make_room d rs) r) (
        append-are_distinct r.key (keys (make_room d rs))
          (ground (arith, are_distinct-erase_min rs, t.once))
          (ground (arith, differs-erase_min r.key rs, find-differs r.key rs f)));
  }

  length-replace_record :
      (key : SpeedKey) (new : SpeedRecord d) (rs : List (SpeedRecord d))
      → length (replace_record d key new rs) ≡ length rs
  unfolding replace_record
  length-replace_record key new [] = refl
  length-replace_record key new (r ∷ rs) = ground (arith, length-replace_record key new rs)

  key-fold_samples :
      (r : SpeedRecord d) (us : d.Double) (samples : ℕ) (now : ℤ)
      → (fold_samples d r us samples now).key ≡ r.key
  unfolding fold_samples
  key-fold_samples r us samples now = refl

  store-IsTable :
      (rs : List (SpeedRecord d)) (key : SpeedKey) (us : d.Double) (samples : ℕ) (now : ℤ)
      → IsTable rs
      → (found : Option (SpeedRecord d)) → find_record d key rs ≡ found
      → IsTable (store d rs key us samples now found)
  store-IsTable rs key us samples now t none f =
      append-IsTable rs
        (record { key = key; us_per_gib = us; samples = samples; updated_unix_s = now }) t f
  store-IsTable rs key us samples now t (some r) f =
      let new = fold_samples d r us samples now in
      record {
        small = rw (length-replace_record key new rs) t.small;
        once = rw (keys-replace_record key r new rs f (key-fold_samples r us samples now)) t.once;
      }

  observe-IsTable :
      (rs : List (SpeedRecord d)) (key : SpeedKey) (us : d.Double) (samples : ℕ) (now : ℤ)
      → IsTable rs
      → IsTable (observe d rs key us samples now)
  unfolding observe
  observe-IsTable rs key us samples now t = elim (Bool-cases (is_nonsense d us samples)) [
    | inl e ↦ rw e t
    | inr e ↦ rw e (store-IsTable rs key us samples now t (find_record d key rs) refl)
  ]

  -- The records of a peer or of a file, added one by one.
  unfoldable pub add_all : List (SpeedRecord d) → List (SpeedRecord d) → List (SpeedRecord d)
  add_all rs [] = rs
  add_all rs (new ∷ news) = add_all (add_record d rs new) news

  add_all-keeps : (rs news : List (SpeedRecord d)) → IsTable rs → IsTable (add_all rs news)
  unfolding add_all add_record
  add_all-keeps rs [] t = t
  add_all-keeps rs (new ∷ news) t =
      add_all-keeps (add_record d rs new) news
        (observe-IsTable rs new.key new.us_per_gib new.samples new.updated_unix_s t)

  -- Whatever records are added to an empty table, in any order and with any time stamps, sensible or
  -- not, the table holds 64 records at most and no two of one key.
  pub add_all-IsTable : (news : List (SpeedRecord d)) → IsTable (add_all [] news)
  add_all-IsTable news = add_all-keeps [] news (record { small = omega arith; once = refl })
