-- ===== src/Transfer/Tests/Uploads.antt =====
-- Concrete uploads, on which the theorems on transfer/upload_tasks.go are applied.
use mcpplane.Common.{
  ℕ, ◌≤◌, ◌≡◌, refl, true, false, some, [], lookup, insert, arith, String-discrete,
}
use mcpplane.Transfer.Tasks.Types.{
  expired, completed, UploadTask, TrackedTask, UploadError, close_reader, new_upload_task_manager,
}
use mcpplane.Transfer.Tasks.Slots.{acquire_slot, acquire_prepared_slot}
use mcpplane.Transfer.Tasks.Prune.{prune, untombstone}
use mcpplane.Transfer.Tasks.Methods.{
  register, begin, start, prepared_task, prepare, fulfill_task, fulfill, refused, get,
}
use mcpplane.Transfer.Tasks.Worker.{on_task, begin_run, complete, outcome}
use mcpplane.Transfer.Tasks.System.{
  after_begin, finished, System, starts, fulfills, with_manager, Reach, here, next, initial,
  start_step, prepare_step, get_step, run_step, complete_step,
}
use mcpplane.Transfer.Tasks.Evicted.{}
use mcpplane.Transfer.Tasks.Lifecycle.{IsValid}
use mcpplane.Transfer.Tasks.Steps.{}
use mcpplane.Transfer.Tasks.Safety.{Reach-IsValid}
use mcpplane.Transfer.Tasks.Methods.{accepted, Job, apply_options}
use mcpplane.Transfer.Tasks.Types.{handle_expired, is_active, is_prepared}
use mcpplane.Transfer.Tasks.Worker.{succeeded}
use mcpplane.Common.{pos}
use mcpplane.Transfer.Tasks.Population.{population}
use mcpplane.Transfer.Tasks.Limits.{Reach-population}
use mcpplane.Transfer.Tasks.Finality.{snapshot, Settled, Reach-Settled}
use mcpplane.Transfer.Tasks.Once.{fulfill-once}
use mcpplane.Transfer.Tasks.Retention.{get-lapsed, lapsed_text}

abbrev fresh_system : System ℕ
fresh_system = initial true (pos 60)

-- An upload that is started, run and completed.
abbrev started : System ℕ
started = starts 5 "a" "cat.png" fresh_system

abbrev running_system : System ℕ
running_system = record {
  manager = on_task (begin_run 6) "a" started.manager;
  phases = insert "a" (after_begin (lookup "a" started.manager.tasks)) started.phases;
}

abbrev completed_system : System ℕ
completed_system = record {
  manager = on_task (complete 7 (succeeded (some 3))) "a" running_system.manager;
  phases = insert "a" finished running_system.phases;
}

Reach-completed : Reach fresh_system completed_system
unfolding starts start begin prune acquire_slot register untombstone on_task begin_run lookup insert
    new_upload_task_manager String-discrete
Reach-completed =
    next
      (next
        (next here (
          start_step 5 "a" "cat.png"
            (record { no_task = refl; no_tombstone = refl; no_phase = refl })))
        (run_step 6 "a" refl))
      (complete_step 7 "a" (succeeded (some 3)) refl)

Reach-IsValid_example : IsValid completed_system
Reach-IsValid_example = Reach-IsValid true (pos 60) completed_system Reach-completed

Reach-population_example :
    (population is_active completed_system.manager.tasks ≤ 8)
    × (population is_prepared completed_system.manager.tasks ≤ 64)
unfolding new_upload_task_manager
Reach-population_example =
    Reach-population fresh_system completed_system refl (λ e. ground arith) (λ e. ground arith)
      Reach-completed

abbrev completed_task : UploadTask ℕ
completed_task = record {
  id = "a";
  name = "cat.png";
  state = completed;
  created_at = 5;
  started_at = some 6;
  finished_at = some 7;
  result = some 3;
  err = "";
}

-- A Get long after the completion.
Reach-Settled_example : Settled "a" completed_task (get 100 "a" completed_system.manager).1
unfolding starts start begin prune acquire_slot register untombstone on_task begin_run lookup insert
    new_upload_task_manager String-discrete snapshot complete outcome close_reader
Reach-Settled_example =
    Reach-Settled true (pos 60) completed_system
      (with_manager (get 100 "a" completed_system.manager).1 completed_system) "a" completed_task
      Reach-completed refl refl (get_step 100 "a")

-- A handle that is prepared and then fulfilled.
abbrev prepared_system : System ℕ
prepared_system =
    with_manager (prepare 10 "p" "dog.png" (pos 20) [] fresh_system.manager).1 fresh_system

Reach-prepared : Reach fresh_system prepared_system
unfolding new_upload_task_manager lookup
Reach-prepared = next here (
    prepare_step 10 "p" "dog.png" (pos 20) []
      (record { no_task = refl; no_tombstone = refl; no_phase = refl }))

abbrev dog_job : Job
dog_job = record { name = "dog.png"; archive_mode = "preserve"; wrap = false }

fulfill-once_example :
    (e : UploadError) × ((fulfill 31 "p" "" (fulfills 30 "p" "" prepared_system).manager).0
      ≡ refused e)
unfolding fulfill fulfill_task prepare begin prune acquire_slot acquire_prepared_slot register
    untombstone lookup insert new_upload_task_manager String-discrete apply_options
fulfill-once_example =
    fulfill-once true (pos 60) prepared_system (fulfills 30 "p" "" prepared_system) 30 31 "p" "" ""
      dog_job Reach-prepared refl here

abbrev dog_task : TrackedTask ℕ
dog_task = prepared_task 10 "p" "dog.png" (pos 20) []

get-lapsed_example :
    ((get 31 "p" prepared_system.manager).0
      ≡ accepted
          (record dog_task.task { state = expired; err = lapsed_text; finished_at = some 31 }))
    × ((fulfill 32 "p" "" (get 31 "p" prepared_system.manager).1).0 ≡ refused (handle_expired "p"))
unfolding prepare prune acquire_prepared_slot lookup insert new_upload_task_manager String-discrete
get-lapsed_example =
    get-lapsed 31 32 "p" "" prepared_system.manager dog_task (refl, tt) refl (λ e. ground arith)
      refl refl (λ e. ground arith) (ground arith)
