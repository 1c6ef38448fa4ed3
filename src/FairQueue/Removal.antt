-- ===== src/FairQueue/Removal.antt =====
-- fair_queue.hpp, the scan of `remove_if` and what `drain` and `close` hand back.
use dan.Common.{
  ℕ, ◌+◌, ◌≡◌, refl, Bool, true, false, not, ◌||◌, ◌&&◌, List, [], ◌∷◌, ◌++◌, Option, none, some,
  ◌==◌, if◌then◌else◌, length, length-append, arith, Option-cases, Bool-cases, ==_iff, ap, sym, inl,
  inr, ◌⊎◌, all,
}
use dan.FairQueue.Table.{items, remove_item, all_items}
use dan.FairQueue.Table.Updates.{
  is_empty, has, Distinct, has-remove_key, remove_key-Distinct, total, IsTable,
}
use dan.FairQueue.{FairQueue, remove_scan, unready, remove_if, drain, close, decrement}
use dan.FairQueue.Invariant.{Inv}

-- Whether the scan emptied the queue of `k`.
abbrev pub is_emptied : Option ℕ → ℕ → Bool
is_emptied none k = false
is_emptied (some key) k = key == k

all-append {ℓ} :
    {T : Type ℓ} (p : T → Bool) (xs ys : List T) → all p (xs ++ ys) ≡ (all p xs && all p ys)
all-append p [] ys = refl
all-append p (x ∷ xs) ys = ground (arith, all-append p xs ys)

module _ {ℓ} {T : Type ℓ} (p : T → Bool) where
  remove_item-some :
      (vs : List T) (v : T) (ws : List T)
      → remove_item p vs ≡ some (v, ws)
      → (p v ≡ true) × (length ws + 1 ≡ length vs)
  unfolding remove_item
  remove_item-some [] v ws h = cc
  remove_item-some (x ∷ vs) v ws h = elim (Option-cases (remove_item p vs)) [
    | inl e ↦ ground arith
    | inr ((w, us), e) ↦ ground (arith, remove_item-some vs w us e)
  ]

  remove_item_none : (vs : List T) → remove_item p vs ≡ none → all (λ v. not (p v)) vs ≡ true
  unfolding remove_item
  remove_item_none [] h = refl
  remove_item_none (x ∷ vs) h = ground (arith, remove_item_none vs)

  -- One item less: the item, those in front of it, which `p` does not admit, and those behind it.
  pub record Cut (vs : List T) (v : T) (ws : List T) : Type ℓ where
    pub before : List T
    pub after : List T
    pub whole : vs ≡ before ++ v ∷ after
    pub remains : ws ≡ before ++ after
    pub skipped : all (λ v. not (p v)) before ≡ true

  remove_item-Cut :
      (vs : List T) (v : T) (ws : List T) → remove_item p vs ≡ some (v, ws) → Cut vs v ws
  unfolding remove_item
  remove_item-Cut [] v ws h = cc
  remove_item-Cut (x ∷ vs) v ws h = elim (Bool-cases (p x)) [
    | inl taken ↦ record {
      before = [];
      after = vs;
      whole = ground (arith, h, taken);
      remains = ground (arith, h, taken);
      skipped = refl;
    }
    | inr passed ↦ elim (Option-cases (remove_item p vs)) [
      | inl e ↦ absurd (ground (arith, h, passed, e))
      | inr ((w, us), e) ↦
          let same : v ≡ w = ground (arith, h, passed, e) in
          let others : ws ≡ x ∷ us = ground (arith, h, passed, e) in
          let c = remove_item-Cut vs w us e in
          record {
            before = x ∷ c.before;
            after = c.after;
            whole = rw same (ap (λ l. x ∷ l) c.whole);
            remains = rw others (ap (λ l. x ∷ l) c.remains);
            skipped = rw passed c.skipped;
          }
    ]
  ]

  not-Cut : (v : T) (ws : List T) → ¬ Cut [] v ws
  not-Cut v ws c = go c.before c.whole
    where
      go : (before : List T) → ¬ ([] ≡ before ++ v ∷ c.after)
      go [] e = cc
      go (x ∷ before) e = cc

  -- An item cut out of the queue of one key, with the queue of every other key as it was.
  pub record Taken (qs qs' : List (ℕ × List T)) (v : T) : Type ℓ where
    pub key : ℕ
    pub cut : Cut (items key qs) v (items key qs')
    pub others : (j : ℕ) → items j qs' ≡ (if key == j then items key qs' else items j qs)

  -- What the scan took, and what it left.
  pub record Removed (qs qs' : List (ℕ × List T)) (emptied : Option ℕ) (v : T) : Type ℓ where
    pub table : IsTable qs'
    pub counted : total qs' + 1 ≡ total qs
    pub chosen : p v ≡ true
    pub taken : Taken qs qs' v
    pub emptied_only :
        (k : ℕ) → is_empty (items k qs') ≡ (is_emptied emptied k || is_empty (items k qs))
    pub emptied_had : (k : ℕ) → is_emptied emptied k ≡ true → is_empty (items k qs) ≡ false

  Outcome : List (ℕ × List T) → Option (List (ℕ × List T) × Option ℕ × T) → Type ℓ
  Outcome qs none = Unit × (all (λ v. not (p v)) (all_items qs) ≡ true)
  Outcome qs (some (qs', emptied, v)) = Removed qs qs' emptied v

  first_only :
      (key : ℕ) (vs : List T) (v : T) (rest : List (ℕ × List T))
      → IsTable ((key, vs) ∷ rest)
      → remove_item p vs ≡ some (v, [])
      → Removed ((key, vs) ∷ rest) rest (some key) v
  unfolding items
  first_only key vs v rest t e = record {
    table = t.2;
    counted = omega (arith, (remove_item-some vs v [] e).1);
    chosen = (remove_item-some vs v [] e).0;
    taken = record {
      key = key;
      cut = rw ((==_iff key key).1 refl, t.1) (remove_item-Cut vs v [] e);
      others = λ j. ground (arith, t.1);
    };
    emptied_only = λ k. ground arith;
    emptied_had = λ k h. ground arith;
  }

  first_of_many :
      (key : ℕ) (vs : List T) (v w : T) (ws : List T) (rest : List (ℕ × List T))
      → IsTable ((key, vs) ∷ rest)
      → remove_item p vs ≡ some (v, w ∷ ws)
      → Removed ((key, vs) ∷ rest) ((key, w ∷ ws) ∷ rest) none v
  unfolding items
  first_of_many key vs v w ws rest t e = record {
    table = (refl, t.1, t.2);
    counted = omega (arith, (remove_item-some vs v (w ∷ ws) e).1);
    chosen = (remove_item-some vs v (w ∷ ws) e).0;
    taken = record {
      key = key;
      cut = rw ((==_iff key key).1 refl) (remove_item-Cut vs v (w ∷ ws) e);
      others = λ j. ground arith;
    };
    emptied_only = λ k. ground arith;
    emptied_had = λ k h. ground arith;
  }

  Taken-later :
      (key : ℕ) (vs : List T) (v : T) (rest rest' : List (ℕ × List T))
      → items key rest ≡ []
      → Taken rest rest' v
      → Taken ((key, vs) ∷ rest) ((key, vs) ∷ rest') v
  unfolding items
  Taken-later key vs v rest rest' none_of_key k = elim (Bool-cases (key == k.key)) [
    | inl same ↦
        let e : key ≡ k.key = (==_iff key k.key).0 same in
        absurd (not-Cut v _ (rw (sym e, none_of_key) at k.cut))
    | inr other ↦ record {
      key = k.key;
      cut = rw other k.cut;
      others = λ j. ground (arith, k.others j, other);
    }
  ]

  later :
      (key : ℕ) (vs : List T) (v : T) (emptied : Option ℕ) (rest rest' : List (ℕ × List T))
      → IsTable ((key, vs) ∷ rest)
      → Removed rest rest' emptied v
      → Removed ((key, vs) ∷ rest) ((key, vs) ∷ rest') emptied v
  unfolding items
  later key vs v emptied rest rest' t r = record {
    table = (t.0, ground (arith, r.emptied_only key), r.table);
    counted = omega (arith, r.counted);
    chosen = r.chosen;
    taken = Taken-later key vs v rest rest' t.1 r.taken;
    emptied_only = λ k. ground (arith, r.emptied_only k, r.emptied_had k);
    emptied_had = λ k h. ground (arith, r.emptied_had k h);
  }

  remove_scan-Outcome : (qs : List (ℕ × List T)) → IsTable qs → Outcome qs (remove_scan p qs)
  unfolding remove_scan Outcome all_items
  remove_scan-Outcome [] t = (tt, refl)
  remove_scan-Outcome ((key, vs) ∷ rest) t =
      go (remove_item p vs) refl (remove_scan-Outcome rest t.2)
    where
      inner :
          (r : Option (List (ℕ × List T) × Option ℕ × T))
          → remove_scan p rest ≡ r
          → remove_item p vs ≡ none
          → Outcome rest r
          → Outcome ((key, vs) ∷ rest) (remove_scan p ((key, vs) ∷ rest))
      inner none f e o =
          rw (e, remove_scan)
            (rw (f, remove_scan)
              (
                tt,
                ground (
                  arith,
                  all-append (λ v. not (p v)) vs (all_items rest),
                  remove_item_none vs e,
                  o.1,
                ),
              ))
      inner (some (rest', emptied, v)) f e o =
          rw (e, remove_scan) (rw (f, remove_scan) (later key vs v emptied rest rest' t o))

      go :
          (r : Option (T × List T))
          → remove_item p vs ≡ r
          → Outcome rest (remove_scan p rest)
          → Outcome ((key, vs) ∷ rest) (remove_scan p ((key, vs) ∷ rest))
      go none e o = inner (remove_scan p rest) refl e o
      go (some (v, [])) e o = rw (e, remove_scan) (first_only key vs v rest t e)
      go (some (v, w ∷ ws)) e o = rw (e, remove_scan) (first_of_many key vs v w ws rest t e)

  -- The two outcomes of `remove_if`, from those of the scan.
  remove_if_cases :
      (q : FairQueue T)
      → Inv q
      → ((remove_if p q ≡ (q, none)) × (all (λ v. not (p v)) (all_items q.queues) ≡ true))
        ⊎ ((qs : List (ℕ × List T)) × (emptied : Option ℕ) × (v : T) × Removed q.queues qs emptied v
            × (remove_if p q ≡ (
              record q { queues = qs; ready = unready emptied q.ready; size = decrement q.size },
              some v,
            )))
  unfolding remove_if
  remove_if_cases q i = go (remove_scan p q.queues) refl (remove_scan-Outcome q.queues i.table)
    where
      go :
          (r : Option (List (ℕ × List T) × Option ℕ × T))
          → remove_scan p q.queues ≡ r
          → Outcome q.queues r
          → ((remove_if p q ≡ (q, none)) × (all (λ v. not (p v)) (all_items q.queues) ≡ true))
            ⊎ ((qs : List (ℕ × List T)) × (emptied : Option ℕ) × (v : T) × Removed q.queues qs
                  emptied v
                × (remove_if p q ≡ (
                  record q {
                    queues = qs;
                    ready = unready emptied q.ready;
                    size = decrement q.size;
                  },
                  some v,
                )))
      go none e o = inl (rw (e, remove_if), unfold Outcome in o.1)
      go (some (qs, emptied, v)) e o = inr (qs, emptied, v, unfold Outcome in o, rw (e, remove_if))

  unready-Distinct :
      (emptied : Option ℕ) (ready : List ℕ) → Distinct ready → Distinct (unready emptied ready)
  unready-Distinct none ready d = d
  unready-Distinct (some key) ready d = remove_key-Distinct key ready d

  has-unready :
      (emptied : Option ℕ) (k : ℕ) (ready : List ℕ)
      → has k (unready emptied ready) ≡ (if is_emptied emptied k then false else has k ready)
  has-unready none k ready = refl
  has-unready (some key) k ready = has-remove_key k key ready

  pub remove_if-Inv : (q : FairQueue T) → Inv q → Inv (remove_if p q).0
  remove_if-Inv q i = elim (remove_if_cases q i) [
    | inl (e, _) ↦ rw e i
    | inr (qs, emptied, v, r, e) ↦ rw e (record {
      table = r.table;
      once = unready-Distinct emptied q.ready i.once;
      announced =
          λ k. ground (arith, has-unready emptied k q.ready, r.emptied_only k, i.announced k);
      counted = ground (arith, r.counted, i.counted);
      bounded = ground (arith, r.counted, i.counted, i.bounded);
    })
  ]

  -- `remove_if` on a queue that keeps its invariant: what it hands back satisfies the predicate and is
  -- an item of the queue of some key. Of that queue the items in front of it do not satisfy the
  -- predicate, and they and those behind it stay in their order; the queue of every other key is as
  -- it was, and the size is one less. When nothing is handed back, no item satisfies the predicate
  -- and the queue is unchanged.
  pub remove_if_takes :
      (q : FairQueue T)
      → Inv q
      → ((v : T) × ((remove_if p q).1 ≡ some v)
          × (p v ≡ true)
          × Taken q.queues (remove_if p q).0.queues v
          × ((remove_if p q).0.size + 1 ≡ q.size))
        ⊎ (((remove_if p q).1 ≡ none)
            × ((remove_if p q).0 ≡ q)
            × (all (λ v. not (p v)) (all_items q.queues) ≡ true))
  remove_if_takes q i = elim (remove_if_cases q i) [
    | inl (e, n) ↦ inr (rw e, rw e, n)
    | inr (qs, emptied, v, r, e) ↦
        inl (v, rw e, r.chosen, rw e r.taken, rw e (ground (arith, r.counted, i.counted)))
  ]

module _ {ℓ} {T : Type ℓ} where
  length-all_items : (qs : List (ℕ × List T)) → length (all_items qs) ≡ total qs
  unfolding all_items
  length-all_items [] = refl
  length-all_items ((k, vs) ∷ rest) =
      ground (arith, length-append vs (all_items rest), length-all_items rest)

  pub drain-Inv : (q : FairQueue T) → Inv (drain q).0
  unfolding drain items
  drain-Inv q = record {
    table = tt;
    once = tt;
    announced = λ k. refl;
    counted = refl;
    bounded = omega arith;
  }

  pub close-Inv : (q : FairQueue T) → Inv (close q).0
  unfolding close
  close-Inv q = drain-Inv (record q { closed = true })

  -- `drain` and `close` hand back as many items as the queue counted and leave none behind; after
  -- `close` the queue is closed.
  pub drain_all :
      (q : FairQueue T)
      → Inv q
      → (length (drain q).1 ≡ q.size)
        × ((drain q).0.size ≡ 0)
        × ((close q).1 ≡ (drain q).1)
        × ((close q).0 ≡ record (drain q).0 { closed = true })
  unfolding drain close
  drain_all q i = (omega (arith, length-all_items q.queues, i.counted), refl, refl, refl)
