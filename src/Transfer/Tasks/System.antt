-- ===== src/Transfer/Tasks/System.antt =====
-- The upload manager with its goroutines: every interleaving of the methods, the goroutines and the
-- watchdogs is a sequence of steps.
use mcpplane.Common.{
  if◌then◌else◌, ℕ, String, Option, none, some, ◌≡◌, ◌⊎◌, Dict, lookup, insert, ℤ, List, [], Bool,
}
use mcpplane.Transfer.Tasks.Types.{
  UploadTaskManager, TrackedTask, is_queued, new_upload_task_manager,
}
use mcpplane.Transfer.Tasks.Methods.{
  Reply, accepted, refused, PrepareOption, start, prepare, fulfill, get, cancel, list,
}
use mcpplane.Transfer.Tasks.Worker.{ExecResult, on_task, begin_run, expire_run, complete}

-- Where the goroutine of a handle stands: launched, in its executor with the watchdog armed, or
-- past its last section.
pub data Phase : Type 0 where
  waiting executing finished : Phase

pub record System (R : Type 0) : Type 0 where
  pub manager : UploadTaskManager R
  pub phases : Dict Phase

-- A goroutine is launched when a call accepts.
abbrev pub launch : {A : Type 0} → String → Reply A → Dict Phase → Dict Phase
launch id (accepted a) phases = insert id waiting phases
launch id (refused e) phases = phases

-- The first section goes on to the executor if the task is still queued.
abbrev pub after_begin : {R : Type 0} → Option (TrackedTask R) → Phase
after_begin none = finished
after_begin (some t) = if is_queued t.task.state then executing else finished

module _ {R : Type 0} where
  unfoldable pub starts : ℕ → String → String → System R → System R
  starts now id name s =
      let (r, m) = start now id name s.manager in
      record { manager = m; phases = launch id r s.phases }

  unfoldable pub fulfills : ℕ → String → String → System R → System R
  fulfills now id name s =
      let (r, m) = fulfill now id name s.manager in
      record { manager = m; phases = launch id r s.phases }

  abbrev pub with_manager : UploadTaskManager R → System R → System R
  with_manager m s = record s { manager = m }

  -- A random handle is one that nothing has used.
  pub record IsFresh (id : String) (s : System R) : Type 0 where
    pub no_task : lookup id s.manager.tasks ≡ none
    pub no_tombstone : lookup id s.manager.tombstones ≡ none
    pub no_phase : lookup id s.phases ≡ none

  pub data Step (s : System R) : System R → Type 0 where
    start_step : (now : ℕ) (id name : String) → IsFresh id s → Step s (starts now id name s)
    prepare_step :
        (now : ℕ) (id name : String) (ttl : ℤ) (opts : List PrepareOption)
        → IsFresh id s
        → Step s (with_manager (prepare now id name ttl opts s.manager).1 s)
    fulfill_step : (now : ℕ) (id name : String) → Step s (fulfills now id name s)
    get_step : (now : ℕ) (id : String) → Step s (with_manager (get now id s.manager).1 s)
    cancel_step : (now : ℕ) (id : String) → Step s (with_manager (cancel now id s.manager).1 s)
    list_step : (now : ℕ) → Step s (with_manager (list now s.manager).1 s)
    run_step :
        (now : ℕ) (id : String)
        → lookup id s.phases ≡ some waiting
        → Step s (record {
          manager = on_task (begin_run now) id s.manager;
          phases = insert id (after_begin (lookup id s.manager.tasks)) s.phases;
        })
    expire_step :
        (now : ℕ) (id : String)
        → (lookup id s.phases ≡ some executing) ⊎ (lookup id s.phases ≡ some finished)
        → Step s (with_manager (on_task (expire_run now) id s.manager) s)
    complete_step :
        (now : ℕ) (id : String) (r : ExecResult R)
        → lookup id s.phases ≡ some executing
        → Step s (record {
          manager = on_task (complete now r) id s.manager;
          phases = insert id finished s.phases;
        })

  pub data Reach (s : System R) : System R → Type 0 where
    here : Reach s s
    next : {t u : System R} → Reach s t → Step t u → Reach s u

  abbrev pub initial : Bool → ℤ → System R
  initial exec ttl = record { manager = new_upload_task_manager exec ttl; phases = [] }
