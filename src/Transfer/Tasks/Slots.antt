-- ===== src/Transfer/Tasks/Slots.antt =====
-- transfer/upload_tasks.go: the two checks of the number of tasks.
use mcpplane.Common.{
  ℕ, ◌+◌, Bool, true, false, Option, none, some, [], ◌∷◌, leb, ◌==◌, if◌then◌else◌, Dict,
}
use mcpplane.Transfer.Tasks.Types.{
  UploadTaskState, TrackedTask, UploadTaskManager, UploadError, too_many_active, too_many_prepared,
  is_active, is_prepared,
}

module _ {R : Type 0} where
  -- The loops of both slot checks: `true` once `limit` tasks in a counted state have been seen.
  unfoldable pub slots_full : (UploadTaskState → Bool) → ℕ → ℕ → Dict (TrackedTask R) → Bool
  slots_full counted limit seen [] = false
  slots_full counted limit seen ((id, t) ∷ m) =
      if counted t.task.state
      then (if leb limit (seen + 1) then true else slots_full counted limit (seen + 1) m)
      else slots_full counted limit seen m

  unfoldable pub acquire_slot : UploadTaskManager R → Option UploadError
  unfolding slots_full
  acquire_slot m =
      if m.max_active == 0
      then none
      else if slots_full is_active m.max_active 0 m.tasks
      then some too_many_active
      else none

  unfoldable pub acquire_prepared_slot : UploadTaskManager R → Option UploadError
  unfolding slots_full
  acquire_prepared_slot m =
      if m.max_prepared == 0
      then none
      else if slots_full is_prepared m.max_prepared 0 m.tasks
      then some too_many_prepared
      else none
