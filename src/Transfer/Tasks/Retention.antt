-- ===== src/Transfer/Tasks/Retention.antt =====
-- What Get answers, by the age of a task.
use mcpplane.Common.{
  ℕ, ◌+◌, ◌-◌, ◌≤◌, ◌<◌, ◌≡◌, ◌≢◌, ◌⊎◌, inl, inr, sym, String, true, false, Option, none, some,
  List, [], ◌∷◌, if◌then◌else◌, Dict, lookup, delete, Distinct, lookup-delete, lookup-insert, arith,
  Option-cases, Bool-cases, All, str_eq_iff, String-discrete,
}
use mcpplane.Transfer.Tasks.Types.{
  UploadTaskState, prepared, queued, running, completed, failed, cancelled, expired, UploadTask,
  TrackedTask, UploadTaskManager, handle_expired,
}
use mcpplane.Transfer.Tasks.Prune.{
  tombstone, expire, window, evict, evictions, finished_before, insert_stable, sort_stable, bury,
  is_past, retire, prune,
}
use mcpplane.Transfer.Tasks.Methods.{accepted, refused, get, fulfill}
use mcpplane.Transfer.Tasks.Evicted.{
  in_batch, in_batch-sort_stable, in_batch-evictions, lookup-prune, prune-SameSettings,
}

-- The error text of a prepared upload that lapsed.
abbrev pub lapsed_text : String
lapsed_text =
    "upload handle expired before any bytes were supplied (presigned endpoint window lapsed)"

module _ {R : Type 0} where
  -- The prune may not take a task: an upload that has not finished, a prepared one whose window is
  -- open or unset, and a finished one younger than the retention.
  abbrev pub Live : UploadTaskState → ℕ → UploadTaskManager R → TrackedTask R → Type 0
  Live prepared now m t = (window m t ≡ 0) ⊎ (now ≤ t.task.created_at + window m t)
  Live queued now m t = Unit
  Live running now m t = Unit
  Live expired now m t = Unit
  Live completed now m t = (at : ℕ) × (t.task.finished_at ≡ some at) × (now ≤ at + m.ttl)
  Live failed now m t = (at : ℕ) × (t.task.finished_at ≡ some at) × (now ≤ at + m.ttl)
  Live cancelled now m t = (at : ℕ) × (t.task.finished_at ≡ some at) × (now ≤ at + m.ttl)

  evict-Live :
      (now : ℕ) (m : UploadTaskManager R) (t : TrackedTask R)
      → Live t.task.state now m t
      → evict now m t ≡ none
  unfolding evict
  evict-Live now m t l = ground arith

  -- In a manager with distinct handles, Get shows, as it is, a task that has not finished, a
  -- prepared one whose window is open or unset, and a finished one not older than the retention.
  pub get-Live :
      (now : ℕ) (id : String) (m : UploadTaskManager R) (t : TrackedTask R)
      → Distinct m.tasks
      → lookup id m.tasks ≡ some t
      → Live t.task.state now m t
      → (get now id m).0 ≡ accepted t.task
  unfolding get
  get-Live now id m t d e l = ground (arith, lookup-prune now id m d, evict-Live now m t l)

  -- Every entry of the batch under a handle carries the same snapshot.
  abbrev Only : String → UploadTask R → List (String × UploadTask R) → Type 0
  Only j x es = All (λ e. (e.0 ≢ j) ⊎ (e.1 ≡ x)) es

  -- The handle has no task, or one that is evicted under the snapshot.
  abbrev pub Evicts : ℕ → UploadTaskManager R → UploadTask R → Option (TrackedTask R) → Type 0
  Evicts now m x none = Unit
  Evicts now m x (some t) = evict now m t ≡ some x

  Evicts-tail :
      (now : ℕ) (m : UploadTaskManager R) (j i : String) (x : UploadTask R) (t : TrackedTask R)
      (ts : Dict (TrackedTask R))
      → lookup i ts ≡ none
      → Evicts now m x (lookup j ((i, t) ∷ ts))
      → Evicts now m x (lookup j ts) × ((i ≢ j) ⊎ (evict now m t ≡ some x))
  unfolding lookup
  Evicts-tail now m j i x t ts d h = elim (String-discrete i j) [
    | yes q ↦ (rw (sym q, d) tt, inr (ground (arith, str_eq_iff i j)))
    | no n ↦ (ground (arith, str_eq_iff i j), inl n)
  ]

  Only-evictions :
      (now : ℕ) (m : UploadTaskManager R) (j : String) (x : UploadTask R)
      (ts : Dict (TrackedTask R))
      → Distinct ts
      → Evicts now m x (lookup j ts)
      → Only j x (evictions now m ts)
  unfolding evictions
  Only-evictions now m j x [] d h = tt
  Only-evictions now m j x ((i, t) ∷ ts) d h =
      let (hs, k) = Evicts-tail now m j i x t ts d.0 h in
      elim (Option-cases (evict now m t)) [
        | inl e ↦ rw (e, All) (Only-evictions now m j x ts d.1 hs)
        | inr (u, e) ↦ rw (e, All) (ground arith, Only-evictions now m j x ts d.1 hs)
      ]

  Only-insert_stable :
      (j : String) (x : UploadTask R) (e : String × UploadTask R)
      (es : List (String × UploadTask R))
      → (e.0 ≢ j) ⊎ (e.1 ≡ x)
      → Only j x es
      → Only j x (insert_stable e es)
  unfolding insert_stable
  Only-insert_stable j x e [] h k = (h, tt)
  Only-insert_stable j x e (y ∷ es) h k =
      elim (Bool-cases (finished_before y.1.finished_at e.1.finished_at)) [
        | inl q ↦ rw (q, if◌then◌else◌) (k.0, Only-insert_stable j x e es h k.1)
        | inr q ↦ rw (q, if◌then◌else◌) (h, k)
      ]

  Only-sort_stable :
      (j : String) (x : UploadTask R) (es : List (String × UploadTask R))
      → Only j x es
      → Only j x (sort_stable es)
  unfolding sort_stable
  Only-sort_stable j x [] h = tt
  Only-sort_stable j x (e ∷ es) h =
      Only-insert_stable j x e (sort_stable es) h.0 (Only-sort_stable j x es h.1)

  -- A handle of the batch is left with its snapshot as its tombstone.
  bury-buried :
      (j : String) (x : UploadTask R) (es : List (String × UploadTask R)) (m : UploadTaskManager R)
      → Only j x es
      → (in_batch j es ≡ true) ⊎ (lookup j m.tombstones ≡ some x)
      → lookup j (bury es m).tombstones ≡ some x
  unfolding bury tombstone in_batch
  bury-buried j x [] m h k = ground arith
  bury-buried j x ((i, tomb) ∷ es) m h k = ground (
    arith,
    bury-buried j x es (record (tombstone i tomb m) { tasks = delete i m.tasks }) h.1,
    lookup-insert i j tomb m.tombstones,
    str_eq_iff i j,
  )

  -- A tombstone of the retention window is not retired.
  retire-recent :
      (cutoff : ℕ) (j : String) (x : UploadTask R) (order : List String)
      (tombs : Dict (UploadTask R))
      → is_past cutoff (some x) ≡ false
      → lookup j tombs ≡ some x
      → lookup j (retire cutoff order tombs).1 ≡ some x
  unfolding retire
  retire-recent cutoff j x [] tombs p h = h
  retire-recent cutoff j x (id ∷ order) tombs p h = ground (
    arith,
    retire-recent cutoff j x order (delete id tombs) p,
    lookup-delete id j tombs,
    str_eq_iff id j,
  )

  -- The prune turns a prepared task whose window has passed into its expired snapshot.
  prune-lapsed :
      (now : ℕ) (id : String) (m : UploadTaskManager R) (t : TrackedTask R)
      → Distinct m.tasks
      → m.ttl ≢ 0
      → lookup id m.tasks ≡ some t
      → evict now m t ≡ some (expire now t.task)
      → lookup id (prune now m).tombstones ≡ some (expire now t.task)
  unfolding prune
  prune-lapsed now id m t d n e v =
      let es : List (String × UploadTask R) = sort_stable (evictions now m m.tasks) in
      let only : Only id (expire now t.task) es =
        Only-sort_stable id (expire now t.task) (evictions now m m.tasks)
          (Only-evictions now m id (expire now t.task) m.tasks d (rw e v)) in
      let buried : lookup id (bury es m).tombstones ≡ some (expire now t.task) =
        bury-buried id (expire now t.task) es m only (
          inl (
            ground (
              arith,
              in_batch-sort_stable id (evictions now m m.tasks),
              in_batch-evictions now m id m.tasks d,
            ))) in
      ground (
        arith,
        retire-recent (now - m.ttl) id (expire now t.task) (bury es m).tombstone_order
            (bury es m).tombstones (ground arith) buried,
      )

  lapsed-evict :
      (now : ℕ) (m : UploadTaskManager R) (t : TrackedTask R)
      → t.task.state ≡ prepared
      → window m t ≢ 0
      → t.task.created_at + window m t < now
      → evict now m t ≡ some (expire now t.task)
  unfolding evict
  lapsed-evict now m t p w l = ground arith

  -- In a manager with an executor, a retention and distinct handles, a prepared task whose window
  -- is set and has passed is shown by Get in the state expired, with the error text of a lapsed
  -- window and the time of the call as its time of finish, and otherwise as it was, and a Fulfill
  -- after that is refused because the handle has expired, whenever it comes.
  pub get-lapsed :
      (now later : ℕ) (id name : String) (m : UploadTaskManager R) (t : TrackedTask R)
      → Distinct m.tasks
      → m.has_exec ≡ true
      → m.ttl ≢ 0
      → lookup id m.tasks ≡ some t
      → t.task.state ≡ prepared
      → window m t ≢ 0
      → t.task.created_at + window m t < now
      → ((get now id m).0
          ≡ accepted (record t.task { state = expired; err = lapsed_text; finished_at = some now }))
        × ((fulfill later id name (get now id m).1).0 ≡ refused (handle_expired id))
  unfolding get fulfill
  get-lapsed now later id name m t d x n e p w l = ground (
    arith,
    lookup-prune now id m d,
    lapsed-evict now m t p w l,
    prune-lapsed now id m t d n e (lapsed-evict now m t p w l),
    prune-SameSettings now m,
  )
