-- ===== src/Transfer/Tasks/Evicted.antt =====
-- What pruneLocked does to the tasks and the tombstones, handle by handle.
use mcpplane.Common.{
  ℕ, ◌-◌, ◌≤◌, ◌≡◌, ◌⊎◌, refl, String, Bool, true, false, ◌||◌, Option, none, some, List, [], ◌∷◌,
  ◌==◌, if◌then◌else◌, Dict, lookup, delete, str_eq, Distinct, delete-Distinct, lookup-delete,
  lookup-insert, arith, tally, tally-delete-le,
}
use mcpplane.Transfer.Tasks.Types.{UploadTask, TrackedTask, UploadTaskManager}
use mcpplane.Transfer.Tasks.Prune.{
  tombstone, evict, evictions, insert_stable, sort_stable, bury, retire, prune,
}

module _ {R : Type 0} where
  -- The handle is in the batch.
  unfoldable pub in_batch : String → List (String × UploadTask R) → Bool
  in_batch j [] = false
  in_batch j ((id, tomb) ∷ es) = str_eq id j || in_batch j es

  pub in_batch-insert_stable :
      (j : String) (e : String × UploadTask R) (es : List (String × UploadTask R))
      → in_batch j (insert_stable e es) ≡ (str_eq e.0 j || in_batch j es)
  unfolding in_batch insert_stable
  in_batch-insert_stable j e [] = refl
  in_batch-insert_stable j e (x ∷ es) = ground (arith, in_batch-insert_stable j e es)

  pub in_batch-sort_stable :
      (j : String) (es : List (String × UploadTask R)) → in_batch j (sort_stable es) ≡ in_batch j es
  unfolding in_batch sort_stable
  in_batch-sort_stable j [] = refl
  in_batch-sort_stable j (e ∷ es) =
      ground (arith, in_batch-insert_stable j e (sort_stable es), in_batch-sort_stable j es)

  pub in_batch-evictions_absent :
      (now : ℕ) (m : UploadTaskManager R) (j : String) (ts : Dict (TrackedTask R))
      → lookup j ts ≡ none
      → in_batch j (evictions now m ts) ≡ false
  unfolding in_batch evictions lookup
  in_batch-evictions_absent now m j [] h = refl
  in_batch-evictions_absent now m j ((i, t) ∷ ts) h =
      ground (arith, in_batch-evictions_absent now m j ts)

  -- A handle is in the batch exactly when its task is evicted.
  pub in_batch-evictions :
      (now : ℕ) (m : UploadTaskManager R) (j : String) (ts : Dict (TrackedTask R))
      → Distinct ts
      → in_batch j (evictions now m ts) ≡ elim (lookup j ts) [
        | none ↦ false
        | some t ↦ elim (evict now m t) [ none ↦ false | some tomb ↦ true ]
      ]
  unfolding in_batch evictions lookup
  in_batch-evictions now m j [] d = refl
  in_batch-evictions now m j ((i, t) ∷ ts) d =
      ground (arith, in_batch-evictions now m j ts d.1, in_batch-evictions_absent now m j ts)

  lookup-bury :
      (j : String) (es : List (String × UploadTask R)) (m : UploadTaskManager R)
      → lookup j (bury es m).tasks ≡ (if in_batch j es then none else lookup j m.tasks)
  unfolding in_batch bury
  lookup-bury j [] m = refl
  lookup-bury j ((i, tomb) ∷ es) m = ground (
    arith,
    lookup-bury j es (record (tombstone i tomb m) { tasks = delete i m.tasks }),
    lookup-delete i j m.tasks,
  )

  -- What the prune leaves under a handle.
  abbrev pub kept : ℕ → UploadTaskManager R → Option (TrackedTask R) → Option (TrackedTask R)
  kept now m none = none
  kept now m (some t) = elim (evict now m t) [ none ↦ some t | some tomb ↦ none ]

  -- A task stays as it is unless the prune evicts it.
  pub lookup-prune :
      (now : ℕ) (j : String) (m : UploadTaskManager R)
      → Distinct m.tasks
      → lookup j (prune now m).tasks
        ≡ (if m.ttl == 0 then lookup j m.tasks else kept now m (lookup j m.tasks))
  unfolding prune
  lookup-prune now j m d = ground (
    arith,
    lookup-bury j (sort_stable (evictions now m m.tasks)) m,
    in_batch-sort_stable j (evictions now m m.tasks),
    in_batch-evictions now m j m.tasks d,
  )

  bury-Distinct :
      (es : List (String × UploadTask R)) (m : UploadTaskManager R)
      → Distinct m.tasks
      → Distinct (bury es m).tasks
  unfolding bury
  bury-Distinct [] m d = d
  bury-Distinct ((i, tomb) ∷ es) m d =
      bury-Distinct es (record (tombstone i tomb m) { tasks = delete i m.tasks })
        (delete-Distinct i m.tasks d)

  pub prune-Distinct :
      (now : ℕ) (m : UploadTaskManager R) → Distinct m.tasks → Distinct (prune now m).tasks
  unfolding prune
  prune-Distinct now m d = ground (arith, bury-Distinct (sort_stable (evictions now m m.tasks)) m d)

  bury-tally :
      (w : TrackedTask R → ℕ) (es : List (String × UploadTask R)) (m : UploadTaskManager R)
      → tally w (bury es m).tasks ≤ tally w m.tasks
  unfolding bury
  bury-tally w [] m = omega arith
  bury-tally w ((i, tomb) ∷ es) m = omega (
    arith,
    bury-tally w es (record (tombstone i tomb m) { tasks = delete i m.tasks }),
    tally-delete-le w i m.tasks,
  )

  -- A prune adds no task of any kind.
  pub prune-tally :
      (w : TrackedTask R → ℕ) (now : ℕ) (m : UploadTaskManager R)
      → tally w (prune now m).tasks ≤ tally w m.tasks
  unfolding prune
  prune-tally w now m = ground (arith, bury-tally w (sort_stable (evictions now m m.tasks)) m)

  -- The settings of the manager.
  abbrev pub SameSettings : UploadTaskManager R → UploadTaskManager R → Type 0
  SameSettings m m' =
      (m'.has_exec ≡ m.has_exec)
      × (m'.ttl ≡ m.ttl)
      × (m'.max_active ≡ m.max_active)
      × (m'.prepared_ttl ≡ m.prepared_ttl)
      × (m'.max_prepared ≡ m.max_prepared)

  bury-SameSettings :
      (es : List (String × UploadTask R)) (m : UploadTaskManager R) → SameSettings m (bury es m)
  unfolding bury tombstone
  bury-SameSettings [] m = (refl, refl, refl, refl, refl)
  bury-SameSettings ((i, tomb) ∷ es) m =
      bury-SameSettings es (record (tombstone i tomb m) { tasks = delete i m.tasks })

  pub prune-SameSettings : (now : ℕ) (m : UploadTaskManager R) → SameSettings m (prune now m)
  unfolding prune
  prune-SameSettings now m =
      ground (arith, bury-SameSettings (sort_stable (evictions now m m.tasks)) m)

  -- A handle is a task or a tombstone, never both.
  abbrev pub Disjoint : UploadTaskManager R → Type 0
  Disjoint m = (j : String) → (lookup j m.tasks ≡ none) ⊎ (lookup j m.tombstones ≡ none)

  bury-Disjoint :
      (es : List (String × UploadTask R)) (m : UploadTaskManager R)
      → Disjoint m
      → Disjoint (bury es m)
  unfolding bury tombstone
  bury-Disjoint [] m d = d
  bury-Disjoint ((i, tomb) ∷ es) m d =
      bury-Disjoint es (record (tombstone i tomb m) { tasks = delete i m.tasks })
        (λ j. ground (arith, d j, lookup-delete i j m.tasks, lookup-insert i j tomb m.tombstones))

  retire-absent :
      (cutoff : ℕ) (j : String) (order : List String) (tombs : Dict (UploadTask R))
      → lookup j tombs ≡ none
      → lookup j (retire cutoff order tombs).1 ≡ none
  unfolding retire
  retire-absent cutoff j [] tombs h = h
  retire-absent cutoff j (id ∷ order) tombs h =
      ground (arith, lookup-delete id j tombs, retire-absent cutoff j order (delete id tombs))

  pub prune-Disjoint : (now : ℕ) (m : UploadTaskManager R) → Disjoint m → Disjoint (prune now m)
  unfolding prune
  prune-Disjoint now m d j =
      let m' : UploadTaskManager R = bury (sort_stable (evictions now m m.tasks)) m in
      ground (
        arith,
        d j,
        bury-Disjoint (sort_stable (evictions now m m.tasks)) m d j,
        retire-absent (now - m.ttl) j m'.tombstone_order m'.tombstones,
      )

  bury-unburied :
      (j : String) (es : List (String × UploadTask R)) (m : UploadTaskManager R)
      → in_batch j es ≡ false
      → lookup j (bury es m).tombstones ≡ lookup j m.tombstones
  unfolding bury tombstone in_batch
  bury-unburied j [] m h = refl
  bury-unburied j ((i, tomb) ∷ es) m h = ground (
    arith,
    bury-unburied j es (record (tombstone i tomb m) { tasks = delete i m.tasks }),
    lookup-insert i j tomb m.tombstones,
  )

  -- A handle that nothing has used gets no tombstone.
  pub prune-unused :
      (now : ℕ) (j : String) (m : UploadTaskManager R)
      → lookup j m.tasks ≡ none
      → lookup j m.tombstones ≡ none
      → lookup j (prune now m).tombstones ≡ none
  unfolding prune
  prune-unused now j m a b =
      let m' : UploadTaskManager R = bury (sort_stable (evictions now m m.tasks)) m in
      ground (
        arith,
        bury-unburied j (sort_stable (evictions now m m.tasks)) m,
        in_batch-sort_stable j (evictions now m m.tasks),
        in_batch-evictions_absent now m j m.tasks a,
        retire-absent (now - m.ttl) j m'.tombstone_order m'.tombstones,
      )
