-- ===== src/FairQueue/Invariant.antt =====
-- fair_queue.hpp: the representation invariant of the queue, kept by every method.
use dan.Common.{
  ℕ, ◌≤◌, ◌≡◌, refl, true, false, not, List, [], ◌∷◌, ◌++◌, some, ◌==◌, if◌then◌else◌, arith,
  Bool-cases, inl, inr,
}
use dan.FairQueue.Table.{items}
use dan.FairQueue.Table.Updates.{
  is_empty, has, Distinct, has-append, append-Distinct, total, IsTable, items-append,
  append-IsTable, total-append, items-replace, replace-IsTable, total-replace, items-erase,
  erase-IsTable, total-erase,
}
use dan.FairQueue.{FairQueue, new_queue, announce, push, serve, pop_loop, pop_locked}

module _ {ℓ} {T : Type ℓ} where
  -- `ready` holds each key that has items once, and no other; `size` is the number of items.
  pub record Inv (q : FairQueue T) : Type ℓ where
    pub table : IsTable q.queues
    pub once : Distinct q.ready
    pub announced : (k : ℕ) → has k q.ready ≡ not (is_empty (items k q.queues))
    pub counted : q.size ≡ total q.queues
    pub bounded : q.size ≤ q.capacity

  pub new-Inv : (capacity : ℕ) → Inv (new_queue {T = T} capacity)
  unfolding items
  new-Inv capacity = record {
    table = tt;
    once = tt;
    announced = λ k. refl;
    counted = refl;
    bounded = omega arith;
  }

  is_empty-append : (vs : List T) (v : T) → is_empty (vs ++ v ∷ []) ≡ false
  is_empty-append [] v = refl
  is_empty-append (x ∷ vs) v = refl

  has-announce :
      (j k : ℕ) (vs : List T) (ready : List ℕ)
      → has k ready ≡ not (is_empty vs)
      → has j (announce vs k ready) ≡ (if k == j then true else has j ready)
  has-announce j k [] ready h = ground (arith, has-append j ready k)
  has-announce j k (v ∷ vs) ready h = ground arith

  announce-Distinct :
      (k : ℕ) (vs : List T) (ready : List ℕ)
      → has k ready ≡ not (is_empty vs)
      → Distinct ready
      → Distinct (announce vs k ready)
  announce-Distinct k [] ready h d = append-Distinct ready k d h
  announce-Distinct k (v ∷ vs) ready h d = d

  pub push-Inv : (q : FairQueue T) (key : ℕ) (value : T) → Inv q → Inv (push q key value).0
  unfolding push
  push-Inv q key value v = elim (Bool-cases (push q key value).1) [
    | inl took ↦ record {
      table = ground (arith, append-IsTable key value q.queues v.table);
      once =
          ground
            (arith, announce-Distinct key (items key q.queues) q.ready (v.announced key) v.once);
      announced = λ k. ground (
        arith,
        v.announced k,
        v.announced key,
        has-announce k key (items key q.queues) q.ready (v.announced key),
        items-append k key value q.queues,
        is_empty-append (items key q.queues) value,
      );
      counted = ground (arith, total-append key value q.queues);
      bounded = ground arith;
    }
    | inr refused ↦ ground arith
  ]

  -- The front key of `ready` has an item, so the loop of `pop_locked` makes one round at most.
  pub pop_front :
      (q : FairQueue T) (key : ℕ) (ready : List ℕ)
      → Inv q
      → q.ready ≡ key ∷ ready
      → (v : T) × (vs : List T) × (items key q.queues ≡ v ∷ vs)
        × (pop_locked q ≡ (serve q key vs ready, some v))
  unfolding pop_locked
  pop_front q key ready i e = go (items key q.queues) refl
    where
      head : has key q.ready ≡ true
      head = rw e (ground arith)

      go :
          (vs : List T)
          → items key q.queues ≡ vs
          → (v : T) × (vs : List T) × (items key q.queues ≡ v ∷ vs)
            × (pop_locked q ≡ (serve q key vs ready, some v))
      go [] h = absurd (ground (arith, i.announced key, head))
      go (v ∷ vs) h = (v, vs, h, rw (e, pop_loop) (rw (h, pop_loop)))

  serve-Inv :
      (q : FairQueue T) (key : ℕ) (v : T) (vs : List T) (ready : List ℕ)
      → Inv q
      → q.ready ≡ key ∷ ready
      → items key q.queues ≡ v ∷ vs
      → Inv (serve q key vs ready)
  serve-Inv q key v [] ready i e h = record {
    table = erase-IsTable key q.queues i.table;
    once = (let d : Distinct (key ∷ ready) = rw e at i.once in d.1);
    announced = λ k. ground (arith, i.announced k, items-erase k key q.queues i.table, i.once);
    counted = ground (arith, i.counted, total-erase key v q.queues h);
    bounded = ground (arith, i.counted, i.bounded, total-erase key v q.queues h);
  }
  serve-Inv q key v (w ∷ ws) ready i e h = record {
    table = replace-IsTable key w ws q.queues (ground arith) i.table;
    once = (let d : Distinct (key ∷ ready) = rw e at i.once in append-Distinct ready key d.1 d.0);
    announced = λ k. ground (
      arith,
      i.announced k,
      items-replace k key (w ∷ ws) q.queues (ground arith),
      has-append k ready key,
    );
    counted = ground (arith, i.counted, total-replace key v (w ∷ ws) q.queues h);
    bounded = ground (arith, i.counted, i.bounded, total-replace key v (w ∷ ws) q.queues h);
  }

  pub pop_locked-Inv : (q : FairQueue T) → Inv q → Inv (pop_locked q).0
  unfolding pop_locked pop_loop
  pop_locked-Inv q i = go q.ready refl
    where
      go : (ready : List ℕ) → q.ready ≡ ready → Inv (pop_loop q q.ready).0
      go [] e =
          rw (e, pop_loop)
            (record {
              table = i.table;
              once = tt;
              announced = λ k. rw e at (i.announced k);
              counted = i.counted;
              bounded = i.bounded;
            })
      go (key ∷ ready) e =
          let (v, vs, h, p) = pop_front q key ready i e in rw p (serve-Inv q key v vs ready i e h)
