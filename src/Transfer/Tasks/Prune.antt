-- ===== src/Transfer/Tasks/Prune.antt =====
-- transfer/upload_tasks.go: the tombstones and pruneLocked.
use mcpplane.Common.{
  ℕ, ◌-◌, String, Bool, true, false, ◌&&◌, Option, none, some, List, [], ◌∷◌, ◌++◌, ltb, ◌==◌,
  if◌then◌else◌, Dict, lookup, insert, delete, str_eq,
}
use mcpplane.Transfer.Tasks.Types.{
  UploadTaskState, prepared, completed, failed, cancelled, expired, UploadTask, TrackedTask,
  UploadTaskManager, lapsed_message,
}

-- The loop that takes the first entry of an id out of the FIFO.
unfoldable pub remove_first : String → List String → List String
remove_first id [] = []
remove_first id (x ∷ order) = if str_eq x id then order else x ∷ remove_first id order

-- The order of sort.SliceStable: by FinishedAt, a nil one first.
abbrev pub finished_before : Option ℕ → Option ℕ → Bool
finished_before none none = false
finished_before none (some b) = true
finished_before (some a) none = false
finished_before (some a) (some b) = ltb a b

module _ {R : Type 0} where
  unfoldable pub tombstone : String → UploadTask R → UploadTaskManager R → UploadTaskManager R
  tombstone id task m = record m {
    tombstones = insert id task m.tombstones;
    tombstone_order = elim (lookup id m.tombstones) [
      | none ↦ m.tombstone_order ++ id ∷ []
      | some _ ↦ m.tombstone_order
    ];
  }

  unfoldable pub untombstone : String → UploadTaskManager R → UploadTaskManager R
  unfolding remove_first
  untombstone id m = elim (lookup id m.tombstones) [
    | none ↦ m
    | some _ ↦ record m {
      tombstones = delete id m.tombstones;
      tombstone_order = remove_first id m.tombstone_order;
    }
  ]

  -- The snapshot of a prepared task whose endpoint has lapsed.
  abbrev pub expire : ℕ → UploadTask R → UploadTask R
  expire now task = record task { state = expired; err = lapsed_message; finished_at = some now }

  abbrev pub window : UploadTaskManager R → TrackedTask R → ℕ
  window m t = if t.prepared_ttl == 0 then m.prepared_ttl else t.prepared_ttl

  abbrev evict_finished : ℕ → Option ℕ → UploadTask R → Option (UploadTask R)
  evict_finished cutoff none task = none
  evict_finished cutoff (some at) task = if ltb at cutoff then some task else none

  abbrev evict_by_state :
      UploadTaskState → ℕ → UploadTaskManager R → TrackedTask R → Option (UploadTask R)
  evict_by_state completed now m t = evict_finished (now - m.ttl) t.task.finished_at t.task
  evict_by_state failed now m t = evict_finished (now - m.ttl) t.task.finished_at t.task
  evict_by_state cancelled now m t = evict_finished (now - m.ttl) t.task.finished_at t.task
  evict_by_state prepared now m t =
      if ltb 0 (window m t) && ltb t.task.created_at (now - window m t)
      then some (expire now t.task)
      else none
  evict_by_state _ now m t = none

  -- The snapshot under which the walk of `pruneLocked` evicts a task, if it does.
  unfoldable pub evict : ℕ → UploadTaskManager R → TrackedTask R → Option (UploadTask R)
  evict now m t = evict_by_state t.task.state now m t

  -- The walk.
  unfoldable pub evictions :
      ℕ → UploadTaskManager R → Dict (TrackedTask R) → List (String × UploadTask R)
  unfolding evict
  evictions now m [] = []
  evictions now m ((id, t) ∷ rest) = elim (evict now m t) [
    | none ↦ evictions now m rest
    | some tomb ↦ (id, tomb) ∷ evictions now m rest
  ]

  -- A stable sort: an element goes behind those that are not after it.
  unfoldable pub insert_stable :
      String × UploadTask R → List (String × UploadTask R) → List (String × UploadTask R)
  insert_stable e [] = e ∷ []
  insert_stable e (x ∷ xs) =
      if finished_before x.1.finished_at e.1.finished_at then x ∷ insert_stable e xs else e ∷ x ∷ xs

  unfoldable pub sort_stable : List (String × UploadTask R) → List (String × UploadTask R)
  unfolding insert_stable
  sort_stable [] = []
  sort_stable (x ∷ xs) = insert_stable x (sort_stable xs)

  -- The loop that tombstones and deletes the batch.
  unfoldable pub bury : List (String × UploadTask R) → UploadTaskManager R → UploadTaskManager R
  unfolding tombstone
  bury [] m = m
  bury ((id, tomb) ∷ rest) m =
      let m' : UploadTaskManager R = tombstone id tomb m in
      bury rest (record m' { tasks = delete id m'.tasks })

  abbrev pub is_past : ℕ → Option (UploadTask R) → Bool
  is_past cutoff none = false
  is_past cutoff (some tomb) = elim tomb.finished_at [ none ↦ false | some at ↦ ltb at cutoff ]

  -- The loop that retires tombstones from the head of the FIFO.
  unfoldable pub retire : ℕ → List String → Dict (UploadTask R) → List String × Dict (UploadTask R)
  retire cutoff [] tombs = ([], tombs)
  retire cutoff (id ∷ order) tombs =
      let rest = retire cutoff order (delete id tombs) in
      if is_past cutoff (lookup id tombs) then rest else (id ∷ order, tombs)

  unfoldable pub prune : ℕ → UploadTaskManager R → UploadTaskManager R
  unfolding evictions sort_stable bury retire
  prune now m =
      if m.ttl == 0
      then m
      else let m' : UploadTaskManager R = bury (sort_stable (evictions now m m.tasks)) m in
        let (order, tombs) = retire (now - m.ttl) m'.tombstone_order m'.tombstones in
        record m' { tombstones = tombs; tombstone_order = order }
