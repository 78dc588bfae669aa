-- ===== src/Transfer/Tasks/Sorting.antt =====
-- transfer/upload_tasks.go: the exchange sort of List.
use mcpplane.Common.{ℕ, zero, suc, List, [], ◌∷◌, ltb, if◌then◌else◌}
use mcpplane.Transfer.Tasks.Types.{UploadTask}

module _ {R : Type 0} where
  -- The inner loop of the sort: the earliest of an element and the rest, and what is left in the
  -- places where the swaps put it.
  unfoldable pub swap_pass : UploadTask R → List (UploadTask R) → UploadTask R × List (UploadTask R)
  swap_pass x [] = (x, [])
  swap_pass x (y ∷ ys) =
      let swapped = swap_pass y ys in
      let kept = swap_pass x ys in
      if ltb y.created_at x.created_at then (swapped.0, x ∷ swapped.1) else (kept.0, y ∷ kept.1)

  -- The outer loop, from its first index on; the fuel is the number of tasks left.
  unfoldable pub exchange_sort : ℕ → List (UploadTask R) → List (UploadTask R)
  unfolding swap_pass
  exchange_sort zero out = out
  exchange_sort (suc n) [] = []
  exchange_sort (suc n) (x ∷ xs) = let p = swap_pass x xs in p.0 ∷ exchange_sort n p.1
