-- ===== src/FairQueue.antt =====
-- engine/include/provider_owned/fair_queue.hpp: a bounded queue that serves its keys in turn.
-- The mutex makes each method one step. `unordered_map` has no fixed iteration order: the model
-- is an association list in some order, and the theorems hold for every such list. The waits of
-- `pop` and `pop_for` are not steps; what both do afterwards is `pop_locked`.
pub mod Table
pub mod Invariant
pub mod Removal
pub mod Fairness
use dan.Common.{
  ℕ, ◌+◌, ◌-◌, ◌^◌, Bool, true, false, ◌||◌, List, [], ◌∷◌, ◌++◌, map, Option, none, some, leb,
  ◌==◌, if◌then◌else◌, length,
}
use Table.{items, append, replace, erase, remove_item, remove_key, all_items}

pub record FairQueue {ℓ} (T : Type ℓ) : Type ℓ where
  pub capacity : ℕ
  pub queues : List (ℕ × List T)
  pub ready : List ℕ
  pub size : ℕ
  pub closed : Bool

abbrev pub unready : Option ℕ → List ℕ → List ℕ
unready none ready = ready
unready (some key) ready = remove_key key ready

-- `--size_`, on a size_t. `++size_` stays below `capacity_` and cannot wrap.
abbrev pub decrement : ℕ → ℕ
decrement size = if size == 0 then 2 ^ 64 - 1 else size - 1

module _ {ℓ} {T : Type ℓ} where
  abbrev pub new_queue : ℕ → FairQueue T
  new_queue capacity = record {
    capacity = capacity;
    queues = [];
    ready = [];
    size = 0;
    closed = false;
  }

  -- `if (queue.empty()) ready_.push_back(key);`
  abbrev pub announce : List T → ℕ → List ℕ → List ℕ
  announce [] key ready = ready ++ key ∷ []
  announce (v ∷ vs) key ready = ready

  unfoldable pub push : FairQueue T → ℕ → T → FairQueue T × Bool
  push q key value = if q.closed || leb q.capacity q.size then (q, false) else (
    record q {
      queues = append key value q.queues;
      ready = announce (items key q.queues) key q.ready;
      size = q.size + 1;
    },
    true,
  )

  -- The queue of `key` has given its front; `rest` is what it keeps and `ready` the keys behind.
  abbrev pub serve : FairQueue T → ℕ → List T → List ℕ → FairQueue T
  serve q key [] ready = record q {
    queues = erase key q.queues;
    ready = ready;
    size = decrement q.size;
  }
  serve q key (v ∷ vs) ready = record q {
    queues = replace key (v ∷ vs) q.queues;
    ready = ready ++ key ∷ [];
    size = decrement q.size;
  }

  -- The loop of `pop_locked`, over the keys that `ready` still holds.
  unfoldable pub pop_loop : FairQueue T → List ℕ → FairQueue T × Option T
  pop_loop q [] = (record q { ready = [] }, none)
  pop_loop q (key ∷ ready) = elim (items key q.queues) [
    | [] ↦ pop_loop q ready
    | v ∷ vs ↦ (serve q key vs ready, some v)
  ]

  unfoldable pub pop_locked : FairQueue T → FairQueue T × Option T
  unfolding pop_loop
  pop_locked q = pop_loop q q.ready

  -- The scan of `remove_if`: the queues afterwards, the key whose queue it emptied, the item.
  unfoldable pub remove_scan :
      (T → Bool) → List (ℕ × List T) → Option (List (ℕ × List T) × Option ℕ × T)
  remove_scan p [] = none
  remove_scan p ((key, vs) ∷ rest) = elim (remove_item p vs) [
    | none ↦ elim (remove_scan p rest) [
      | none ↦ none
      | some (rest', emptied, v) ↦ some ((key, vs) ∷ rest', emptied, v)
    ]
    | some (v, []) ↦ some (rest, some key, v)
    | some (v, w ∷ ws) ↦ some ((key, w ∷ ws) ∷ rest, none, v)
  ]

  unfoldable pub remove_if : (T → Bool) → FairQueue T → FairQueue T × Option T
  remove_if p q = elim (remove_scan p q.queues) [
    | none ↦ (q, none)
    | some (queues, emptied, v) ↦ (
      record q { queues = queues; ready = unready emptied q.ready; size = decrement q.size },
      some v,
    )
  ]

  unfoldable pub drain : FairQueue T → FairQueue T × List T
  drain q = (record q { queues = []; ready = []; size = 0 }, all_items q.queues)

  unfoldable pub close : FairQueue T → FairQueue T × List T
  unfolding drain
  close q = drain (record q { closed = true })

  abbrev pub depths : FairQueue T → List (ℕ × ℕ)
  depths q = map (λ e. (e.0, length e.1)) q.queues
