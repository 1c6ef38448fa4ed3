-- ===== src/Runs/Queues.antt =====
-- fair_queue.hpp with one key that has many items and one that has few.
use dan.Common.{ℕ, ◌+◌, ◌≡◌, ◌⊎◌, refl, true, false, not, List, [], ◌∷◌, none, some, all, ltb}
use dan.FairQueue.Table.{items, append, all_items}
use dan.FairQueue.{FairQueue, new_queue, push, pop_locked, remove_if}
use dan.FairQueue.Invariant.{Inv}
use dan.FairQueue.Removal.{Taken, remove_if_takes}
use dan.FairQueue.Fairness.{Call, pushes, pops, removes, closes, step, run, run-Inv, fair_service}

-- Three items for key 1 and then one for key 2.
abbrev history : List (Call ℕ)
history = pushes 1 10 ∷ pushes 1 11 ∷ pushes 1 12 ∷ pushes 2 20 ∷ []

abbrev crowded : FairQueue ℕ
crowded = record {
  capacity = 8;
  queues = (1, 10 ∷ 11 ∷ 12 ∷ []) ∷ (2, 20 ∷ []) ∷ [];
  ready = 1 ∷ 2 ∷ [];
  size = 4;
  closed = false;
}

crowded-run : run (new_queue 8) history ≡ crowded
unfolding run step push append items
crowded-run = refl

crowded-Inv : Inv crowded
crowded-Inv = rw crowded-run at (run-Inv 8 history)

run-Inv_example :
    Inv
      (run {T = ℕ} (new_queue 8) (pushes 1 10 ∷ pops ∷ removes (ltb 5) ∷ pushes 2 20 ∷ closes ∷ []))
run-Inv_example = run-Inv 8 (pushes 1 10 ∷ pops ∷ removes (ltb 5) ∷ pushes 2 20 ∷ closes ∷ [])

crowded-items : items 2 crowded.queues ≡ 20 ∷ []
unfolding items
crowded-items = refl

-- Key 1 gets more items meanwhile, and key 2 is served after one pop all the same.
fair_service_example :
    (pop_locked (run crowded (pushes 1 13 ∷ pops ∷ pushes 1 14 ∷ []))).1 ≡ some 20
fair_service_example =
    fair_service crowded (1 ∷ []) [] 2 20 [] (pushes 1 13 ∷ pops ∷ pushes 1 14 ∷ []) crowded-Inv
      refl crowded-items refl refl

remove_if_takes_example :
    ((v : ℕ) × ((remove_if (ltb 15) crowded).1 ≡ some v)
      × (ltb 15 v ≡ true)
      × Taken (ltb 15) crowded.queues (remove_if (ltb 15) crowded).0.queues v
      × ((remove_if (ltb 15) crowded).0.size + 1 ≡ 4))
    ⊎ (((remove_if (ltb 15) crowded).1 ≡ none)
        × ((remove_if (ltb 15) crowded).0 ≡ crowded)
        × (all (λ v. not (ltb 15 v)) (all_items crowded.queues) ≡ true))
remove_if_takes_example = remove_if_takes (ltb 15) crowded crowded-Inv
