-- ===== src/FairQueue/Fairness.antt =====
-- fair_queue.hpp: histories of calls, and how soon a key with items is served.
use dan.Common.{
  ℕ, suc, ◌≡◌, ◌≢◌, refl, ◌∙◌, Bool, true, false, ◌||◌, List, [], ◌∷◌, ◌++◌, some, ◌==◌, length,
  arith, Bool-cases, inl, inr, ◌⊎◌, leb,
}
use mathlib.Core.List.{append_assoc}
use dan.FairQueue.Table.{items, append}
use dan.FairQueue.Table.Updates.{has, Distinct, items-append, items-replace, items-erase, total}
use dan.FairQueue.{FairQueue, new_queue, push, announce, serve, pop_locked, remove_if, drain, close}
use dan.FairQueue.Invariant.{Inv, new-Inv, push-Inv, pop_locked-Inv, pop_front}
use dan.FairQueue.Removal.{remove_if-Inv, drain-Inv, close-Inv}

-- The calls that change the queue.
pub data Call {ℓ} (T : Type ℓ) : Type ℓ where
  pushes : ℕ → T → Call T
  pops : Call T
  removes : (T → Bool) → Call T
  drains : Call T
  closes : Call T

has_middle :
    (f : ℕ) (front : List ℕ) (k : ℕ) (back : List ℕ)
    → has f (front ++ (k ∷ back)) ≡ false
    → (f == k) ≡ false
has_middle f [] k back h = ground arith
has_middle f (x ∷ front) k back h = ground (arith, has_middle f front k back)

module _ {ℓ} {T : Type ℓ} where
  unfoldable pub step : FairQueue T → Call T → FairQueue T
  step q (pushes key value) = (push q key value).0
  step q pops = (pop_locked q).0
  step q (removes p) = (remove_if p q).0
  step q drains = (drain q).0
  step q closes = (close q).0

  unfoldable pub run : FairQueue T → List (Call T) → FairQueue T
  run q [] = q
  run q (c ∷ cs) = run (step q c) cs

  step-Inv : (q : FairQueue T) (c : Call T) → Inv q → Inv (step q c)
  unfolding step
  step-Inv q (pushes key value) i = push-Inv q key value i
  step-Inv q pops i = pop_locked-Inv q i
  step-Inv q (removes p) i = remove_if-Inv p q i
  step-Inv q drains i = drain-Inv q
  step-Inv q closes i = close-Inv q

  run_keeps : (q : FairQueue T) (cs : List (Call T)) → Inv q → Inv (run q cs)
  unfolding run
  run_keeps q [] i = i
  run_keeps q (c ∷ cs) i = run_keeps (step q c) cs (step-Inv q c i)

  -- After any sequence of pushes, pops, removals, drains and closes on a new queue, `ready` holds
  -- exactly the keys that have items, each once, no stored queue is empty, and `size` counts the
  -- items and is at most the capacity.
  pub run-Inv : (capacity : ℕ) (cs : List (Call T)) → Inv (run (new_queue capacity) cs)
  run-Inv capacity cs = run_keeps (new_queue capacity) cs (new-Inv capacity)

  -- `pop` finds an item whenever the queue counts one.
  pub pop_progress : (q : FairQueue T) → Inv q → q.size ≢ 0 → (v : T) × ((pop_locked q).1 ≡ some v)
  unfolding items
  pop_progress q i h = go q.ready refl
    where
      no_items : (qs : List (ℕ × List T)) → q.queues ≡ qs → q.ready ≡ [] → total q.queues ≡ 0
      no_items [] e r = rw e
      no_items ((k, vs) ∷ rest) e r = absurd (ground (arith, i.announced k, i.table, e, r))

      go : (ready : List ℕ) → q.ready ≡ ready → (v : T) × ((pop_locked q).1 ≡ some v)
      go [] e = absurd (h (i.counted ∙ no_items q.queues refl e))
      go (key ∷ ready) e = let (v, vs, _, p) = pop_front q key ready i e in (v, rw p)

  -- A history of pushes and pops alone, and the number of its pops.
  abbrev pub is_traffic : List (Call T) → Bool
  is_traffic [] = true
  is_traffic (pushes key value ∷ cs) = is_traffic cs
  is_traffic (pops ∷ cs) = is_traffic cs
  is_traffic (_ ∷ cs) = false

  abbrev pub pop_count : List (Call T) → ℕ
  pop_count [] = 0
  pop_count (pops ∷ cs) = suc (pop_count cs)
  pop_count (_ ∷ cs) = pop_count cs

  -- `k` stands in `ready` behind the keys of `front`, and `v` is its oldest item.
  Waits : FairQueue T → List ℕ → ℕ → T → Type ℓ
  Waits q front k v =
      (back : List ℕ) × (vs : List T) × (q.ready ≡ front ++ (k ∷ back))
      × (items k q.queues ≡ v ∷ vs)

  announce_behind :
      (vs : List T) (key : ℕ) (front : List ℕ) (k : ℕ) (back : List ℕ)
      → (back' : List ℕ) × (announce vs key (front ++ (k ∷ back)) ≡ front ++ (k ∷ back'))
  announce_behind [] key front k back = (back ++ key ∷ [], append_assoc front (k ∷ back) (key ∷ []))
  announce_behind (v ∷ vs) key front k back = (back, refl)

  push-Waits :
      (q : FairQueue T) (key : ℕ) (value : T) (front : List ℕ) (k : ℕ) (v : T)
      → Waits q front k v
      → Waits (push q key value).0 front k v
  unfolding push Waits
  push-Waits q key value front k v (back, vs, r, h) =
      elim (Bool-cases (q.closed || leb q.capacity q.size)) [
        | inl e ↦ rw e (back, vs, r, h)
        | inr e ↦
            rw e
              (took (Bool-cases (key == k)) (announce_behind (items key q.queues) key front k back))
      ]
    where
      took :
          ((key == k) ≡ true) ⊎ ((key == k) ≡ false)
          → (back' : List ℕ) × (announce (items key q.queues) key (front ++ (k ∷ back))
              ≡ front ++ (k ∷ back'))
          → (back' : List ℕ) × (vs' : List T) × (announce (items key q.queues) key q.ready
              ≡ front ++ (k ∷ back'))
            × (items k (append key value q.queues) ≡ v ∷ vs')
      took (inl same) (back', e) =
          (back', vs ++ value ∷ [], rw r e, ground (arith, items-append k key value q.queues))
      took (inr other) (back', e) =
          (back', vs, rw r e, ground (arith, items-append k key value q.queues))

  pop-Waits :
      (q : FairQueue T) (f : ℕ) (front : List ℕ) (k : ℕ) (v : T)
      → Inv q
      → Waits q (f ∷ front) k v
      → Waits (pop_locked q).0 front k v
  unfolding Waits
  pop-Waits q f front k v i (back, vs, r, h) =
      let (w, ws, g, p) = pop_front q f (front ++ (k ∷ back)) i r in
      let once : Distinct (f ∷ (front ++ (k ∷ back))) = rw r at i.once in
      rw p (served w ws g (has_middle f front k back once.0))
    where
      served :
          (w : T) (ws : List T)
          → items f q.queues ≡ w ∷ ws
          → (f == k) ≡ false
          → (back' : List ℕ) × (vs' : List T) × ((serve q f ws (front ++ (k ∷ back))).ready
              ≡ front ++ (k ∷ back'))
            × (items k (serve q f ws (front ++ (k ∷ back))).queues ≡ v ∷ vs')
      served w [] g ne = (back, vs, refl, items-erase k f q.queues i.table ∙ rw ne h)
      served w (u ∷ us) g ne = (
        back ++ f ∷ [],
        vs,
        append_assoc front (k ∷ back) (f ∷ []),
        items-replace k f (u ∷ us) q.queues (rw g) ∙ rw ne h,
      )

  served_in_turn :
      (q : FairQueue T) (front : List ℕ) (k : ℕ) (v : T) (cs : List (Call T))
      → Inv q
      → Waits q front k v
      → is_traffic cs ≡ true
      → pop_count cs ≡ length front
      → (pop_locked (run q cs)).1 ≡ some v
  unfolding run step Waits
  served_in_turn q [] k v [] i (back, vs, r, h) t n =
      let (w, ws, g, p) = pop_front q k back i r in rw p (ground arith)
  served_in_turn q (f ∷ front) k v [] i w t n = absurd (omega arith)
  served_in_turn q front k v (pushes key value ∷ cs) i w t n =
      served_in_turn (push q key value).0 front k v cs (push-Inv q key value i)
        (push-Waits q key value front k v w) t n
  served_in_turn q [] k v (pops ∷ cs) i w t n = absurd (omega arith)
  served_in_turn q (f ∷ front) k v (pops ∷ cs) i w t n =
      served_in_turn (pop_locked q).0 front k v cs (pop_locked-Inv q i)
        (pop-Waits q f front k v i w) t (omega arith)
  served_in_turn q front k v (removes p ∷ cs) i w t n = cc
  served_in_turn q front k v (drains ∷ cs) i w t n = cc
  served_in_turn q front k v (closes ∷ cs) i w t n = cc

  -- Round robin: when the key `k` with oldest item `v` stands behind the keys `front` in `ready`,
  -- then after any history of pushes and of exactly as many pops as `front` has keys, whatever the
  -- pushes add for any key, the next pop hands back `v`.
  pub fair_service :
      (q : FairQueue T) (front back : List ℕ) (k : ℕ) (v : T) (vs : List T) (cs : List (Call T))
      → Inv q
      → q.ready ≡ front ++ (k ∷ back)
      → items k q.queues ≡ v ∷ vs
      → is_traffic cs ≡ true
      → pop_count cs ≡ length front
      → (pop_locked (run q cs)).1 ≡ some v
  unfolding Waits
  fair_service q front back k v vs cs i r h t n =
      served_in_turn q front k v cs i (back, vs, r, h) t n
