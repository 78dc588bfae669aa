-- ===== src/Transfer/Tasks/Population.antt =====
-- The number of tasks in a counted state, and what the slot checks and the sections do to it.
use mcpplane.Common.{
  ℕ, ◌+◌, ◌≤◌, ◌<◌, ◌≡◌, ◌≢◌, inl, inr, String, Bool, false, none, [], ◌∷◌, if◌then◌else◌, Dict,
  lookup, insert, arith, Option-cases,
}
use mcpplane.Transfer.Tasks.Types.{UploadTaskState, TrackedTask, UploadTaskManager, close_reader}
use mcpplane.Transfer.Tasks.Slots.{acquire_slot, acquire_prepared_slot}
use mcpplane.Transfer.Tasks.Methods.{cancel_task}
use mcpplane.Transfer.Tasks.Worker.{ExecResult, on_task, begin_run, expire_run, complete, outcome}
use mcpplane.Transfer.Tasks.System.{}
use mcpplane.Transfer.Tasks.Evicted.{}
use mcpplane.Transfer.Tasks.Lifecycle.{}
use mcpplane.Transfer.Tasks.Steps.{}
use mcpplane.Common.{tally, tally-insert}
use mcpplane.Transfer.Tasks.Types.{is_active, is_prepared}
use mcpplane.Transfer.Tasks.Slots.{slots_full}

module _ {R : Type 0} where
  abbrev pub weight : (UploadTaskState → Bool) → TrackedTask R → ℕ
  weight counted t = if counted t.task.state then 1 else 0

  -- How many tasks are in a counted state.
  unfoldable pub population : (UploadTaskState → Bool) → Dict (TrackedTask R) → ℕ
  population counted m = tally (weight counted) m

  slots_full-population :
      (counted : UploadTaskState → Bool) (limit seen : ℕ) (m : Dict (TrackedTask R))
      → seen < limit
      → slots_full counted limit seen m ≡ false
      → seen + population counted m < limit
  unfolding slots_full population tally
  slots_full-population counted limit seen [] l h = omega arith
  slots_full-population counted limit seen ((id, t) ∷ m) l h = ground (
    arith,
    slots_full-population counted limit (seen + 1) m,
    slots_full-population counted limit seen m,
  )

  pub acquire_slot-population :
      (m : UploadTaskManager R)
      → m.max_active ≢ 0
      → acquire_slot m ≡ none
      → population is_active m.tasks < m.max_active
  unfolding acquire_slot
  acquire_slot-population m n h =
      ground (arith, slots_full-population is_active m.max_active 0 m.tasks)

  pub acquire_prepared_slot-population :
      (m : UploadTaskManager R)
      → m.max_prepared ≢ 0
      → acquire_prepared_slot m ≡ none
      → population is_prepared m.tasks < m.max_prepared
  unfolding acquire_prepared_slot
  acquire_prepared_slot-population m n h =
      ground (arith, slots_full-population is_prepared m.max_prepared 0 m.tasks)

  pub population-insert :
      (counted : UploadTaskState → Bool) (id : String) (t : TrackedTask R)
      (m : Dict (TrackedTask R))
      → population counted (insert id t m) ≤ population counted m + weight counted t
  unfolding population
  population-insert counted id t m = ground (arith, tally-insert (weight counted) id t m)

  pub population-on_task :
      (counted : UploadTaskState → Bool) (f : TrackedTask R → TrackedTask R) (id : String)
      (m : UploadTaskManager R)
      → ((t : TrackedTask R) → weight counted (f t) ≤ weight counted t)
      → population counted (on_task f id m).tasks ≤ population counted m.tasks
  unfolding population on_task
  population-on_task counted f id m h = elim (Option-cases (lookup id m.tasks)) [
    | inl e ↦ ground arith
    | inr (t, e) ↦ ground (arith, h t, tally-insert (weight counted) id (f t) m.tasks)
  ]

  -- A section of the goroutine or of the watchdog, or a cancellation, makes no task active or
  -- prepared.
  pub begin_run-weight :
      (now : ℕ) (t : TrackedTask R)
      → (weight is_active (begin_run now t) ≤ weight is_active t)
        × (weight is_prepared (begin_run now t) ≤ weight is_prepared t)
  unfolding begin_run
  begin_run-weight now t = ground arith

  pub expire_run-weight :
      (now : ℕ) (t : TrackedTask R)
      → (weight is_active (expire_run now t) ≤ weight is_active t)
        × (weight is_prepared (expire_run now t) ≤ weight is_prepared t)
  unfolding expire_run close_reader
  expire_run-weight now t = ground arith

  pub complete-weight :
      (now : ℕ) (r : ExecResult R) (t : TrackedTask R)
      → (weight is_active (complete now r t) ≤ weight is_active t)
        × (weight is_prepared (complete now r t) ≤ weight is_prepared t)
  unfolding complete close_reader outcome
  complete-weight now r t = ground arith

  pub cancel_task-weight :
      (now : ℕ) (id : String) (t : TrackedTask R)
      → (weight is_active (cancel_task now id t).1 ≤ weight is_active t)
        × (weight is_prepared (cancel_task now id t).1 ≤ weight is_prepared t)
  unfolding cancel_task close_reader
  cancel_task-weight now id t = ground arith
