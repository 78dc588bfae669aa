-- ===== src/Transfer/Tasks/Listing.antt =====
-- The exchange sort of List.
use mcpplane.Common.{
  ℕ, zero, suc, ◌+◌, ◌≤◌, ◌≡◌, refl, String, Bool, List, [], ◌∷◌, ltb, if◌then◌else◌, arith, length,
  All, map, Bool-cases, inl, inr,
}
use mcpplane.Transfer.Tasks.Types.{UploadTask, TrackedTask, UploadTaskManager}
use mcpplane.Transfer.Tasks.Prune.{prune}
use mcpplane.Transfer.Tasks.Methods.{list}
use mcpplane.Transfer.Tasks.Sorting.{swap_pass, exchange_sort}

module _ {R : Type 0} where
  -- How many tasks pass a test.
  pub passing : (UploadTask R → Bool) → List (UploadTask R) → ℕ
  passing p [] = 0
  passing p (x ∷ xs) = (if p x then 1 else 0) + passing p xs

  -- No task comes before one that was created earlier.
  abbrev pub Sorted : List (UploadTask R) → Type 0
  Sorted [] = Unit
  Sorted (x ∷ xs) = All (λ y. x.created_at ≤ y.created_at) xs × Sorted xs

  swap_pass-passing :
      (p : UploadTask R → Bool) (x : UploadTask R) (xs : List (UploadTask R))
      → passing p ((swap_pass x xs).0 ∷ (swap_pass x xs).1) ≡ passing p (x ∷ xs)
  unfolding passing swap_pass
  swap_pass-passing p x [] = refl
  swap_pass-passing p x (y ∷ ys) =
      ground (arith, swap_pass-passing p x ys, swap_pass-passing p y ys)

  swap_pass-length :
      (x : UploadTask R) (xs : List (UploadTask R)) → length (swap_pass x xs).1 ≡ length xs
  unfolding swap_pass
  swap_pass-length x [] = refl
  swap_pass-length x (y ∷ ys) = ground (arith, swap_pass-length x ys, swap_pass-length y ys)

  swap_pass-least :
      (b : ℕ) (x : UploadTask R) (xs : List (UploadTask R))
      → b ≤ x.created_at
      → All (λ y. b ≤ y.created_at) xs
      → (b ≤ (swap_pass x xs).0.created_at) × All (λ y. b ≤ y.created_at) (swap_pass x xs).1
  unfolding swap_pass
  swap_pass-least b x [] h a = (h, tt)
  swap_pass-least b x (y ∷ ys) h a = ground (arith, swap_pass-least b x ys, swap_pass-least b y ys)

  -- The pass brings the earliest task to the front.
  swap_pass-front :
      (x : UploadTask R) (xs : List (UploadTask R))
      → ((swap_pass x xs).0.created_at ≤ x.created_at)
        × All (λ y. (swap_pass x xs).0.created_at ≤ y.created_at) (swap_pass x xs).1
  unfolding swap_pass
  swap_pass-front x [] = (omega arith, tt)
  swap_pass-front x (y ∷ ys) = elim (Bool-cases (ltb y.created_at x.created_at)) [
    | inl e ↦
        rw (e, if◌then◌else◌)
          (
            ground (arith, swap_pass-front y ys),
            (ground (arith, swap_pass-front y ys), (swap_pass-front y ys).1),
          )
    | inr e ↦
        rw (e, if◌then◌else◌)
          (
            (swap_pass-front x ys).0,
            (ground (arith, swap_pass-front x ys), (swap_pass-front x ys).1),
          )
  ]

  exchange_sort-least :
      (b n : ℕ) (xs : List (UploadTask R))
      → All (λ y. b ≤ y.created_at) xs
      → All (λ y. b ≤ y.created_at) (exchange_sort n xs)
  unfolding exchange_sort
  exchange_sort-least b zero xs a = a
  exchange_sort-least b (suc n) [] a = tt
  exchange_sort-least b (suc n) (x ∷ xs) a =
      let l = swap_pass-least b x xs a.0 a.1 in
      (l.0, exchange_sort-least b n (swap_pass x xs).1 l.1)

  exchange_sort-Sorted :
      (n : ℕ) (xs : List (UploadTask R)) → length xs ≡ n → Sorted (exchange_sort n xs)
  unfolding exchange_sort
  exchange_sort-Sorted zero [] q = tt
  exchange_sort-Sorted zero (x ∷ xs) q = ground arith
  exchange_sort-Sorted (suc n) [] q = tt
  exchange_sort-Sorted (suc n) (x ∷ xs) q = (
    exchange_sort-least (swap_pass x xs).0.created_at n (swap_pass x xs).1 (swap_pass-front x xs).1,
    exchange_sort-Sorted n (swap_pass x xs).1 (omega (arith, swap_pass-length x xs)),
  )

  exchange_sort-passing :
      (p : UploadTask R → Bool) (n : ℕ) (xs : List (UploadTask R))
      → passing p (exchange_sort n xs) ≡ passing p xs
  unfolding exchange_sort passing
  exchange_sort-passing p zero xs = refl
  exchange_sort-passing p (suc n) [] = refl
  exchange_sort-passing p (suc n) (x ∷ xs) =
      ground (arith, exchange_sort-passing p n (swap_pass x xs).1, swap_pass-passing p x xs)

  -- List returns the tasks that the prune leaves, earliest creation first: for every test, as many
  -- listed tasks pass it as tasks of the pruned map do.
  pub list-Sorted :
      (now : ℕ) (m : UploadTaskManager R) (p : UploadTask R → Bool)
      → Sorted (list now m).0
        × (passing p (list now m).0 ≡ passing p (map (λ e. e.1.task) (prune now m).tasks))
  unfolding list
  list-Sorted now m p =
      let out = map (λ (e : String × TrackedTask R). e.1.task) (prune now m).tasks in
      (exchange_sort-Sorted (length out) out refl, exchange_sort-passing p (length out) out)
