-- ===== src/Transfer/Tasks/Methods.antt =====
-- transfer/upload_tasks.go: the methods of the manager. A new handle is random and given as an
-- argument. Where `start` and `fulfill` refuse, they close the reader that they were handed.
use mcpplane.Common.{
  ℕ, String, Bool, true, false, Option, none, some, List, [], ◌∷◌, if◌then◌else◌, length, lookup,
  insert, ℤ, positive_or, map,
}
use mcpplane.Transfer.Tasks.Types.{
  UploadTaskState, prepared, queued, running, completed, failed, cancelled, expired, UploadTask,
  TrackedTask, UploadTaskManager, UploadError, not_configured, handle_expired, unknown_handle,
  in_progress, already_finished, cannot_fulfill, not_cancellable, default_upload_name, name_or,
  close_reader,
}
use mcpplane.Transfer.Tasks.Sorting.{exchange_sort}
use mcpplane.Transfer.Tasks.Slots.{acquire_slot, acquire_prepared_slot}
use mcpplane.Transfer.Tasks.Prune.{prune, untombstone}

-- What a call returns.
pub data Reply (A : Type 0) : Type 0 where
  accepted : A → Reply A
  refused : UploadError → Reply A

-- PrepareOption, applied in order.
pub data PrepareOption : Type 0 where
  with_archive_mode : String → PrepareOption
  with_wrap : Bool → PrepareOption

pub record PrepareOpts : Type 0 where
  pub archive_mode : String
  pub wrap : Bool

unfoldable pub apply_option : PrepareOption → PrepareOpts → PrepareOpts
apply_option (with_archive_mode mode) o = record o { archive_mode = name_or mode "convert" }
apply_option (with_wrap wrap) o = record o { wrap = wrap }

unfoldable pub apply_options : List PrepareOption → PrepareOpts → PrepareOpts
unfolding apply_option
apply_options [] o = o
apply_options (x ∷ xs) o = apply_options xs (apply_option x o)

abbrev pub reply_of : {A : Type 0} → A → Option UploadError → Reply A
reply_of a none = accepted a
reply_of a (some e) = refused e

-- What the goroutine gets: the name, the archive mode and the wrap flag.
pub record Job : Type 0 where
  pub name : String
  pub archive_mode : String
  pub wrap : Bool

module _ {R : Type 0} where
  abbrev pub new_task : ℕ → String → String → UploadTaskState → UploadTask R
  new_task now id name state = record {
    id = id;
    name = name;
    state = state;
    created_at = now;
    started_at = none;
    finished_at = none;
    result = none;
    err = "";
  }

  -- The entry that `beginLocked` makes for a task, which it queues.
  abbrev pub claimed : ℕ → UploadTask R → TrackedTask R
  claimed now task = record {
    task = record task { state = queued; started_at = some now };
    has_reader = true;
    close_once = false;
    closes = 0;
    timed_out = false;
    prepared_ttl = 0;
    archive_mode = "";
    wrap = false;
  }

  -- `beginLocked` after its prune.
  unfoldable pub register : ℕ → UploadTask R → UploadTaskManager R → UploadTaskManager R
  unfolding untombstone
  register now task m =
      untombstone task.id (record m { tasks = insert task.id (claimed now task) m.tasks })

  unfoldable pub begin :
      ℕ → UploadTask R → UploadTaskManager R → Option UploadError × UploadTaskManager R
  unfolding prune acquire_slot register
  begin now task m =
      let m' : UploadTaskManager R = prune now m in
      elim (acquire_slot m') [ some e ↦ (some e, m') | none ↦ (none, register now task m') ]

  abbrev pub answer :
      {A : Type 0} → A → Option UploadError × UploadTaskManager R → Reply A × UploadTaskManager R
  answer a p = (reply_of a p.0, p.1)

  unfoldable pub start :
      ℕ → String → String → UploadTaskManager R → Reply String × UploadTaskManager R
  unfolding begin
  start now id name m =
      if m.has_exec
      then answer id (begin now (new_task now id (name_or name default_upload_name) queued) m)
      else (refused not_configured, m)

  abbrev pub prepared_task : ℕ → String → String → ℤ → List PrepareOption → TrackedTask R
  prepared_task now id name ttl opts =
      let o : PrepareOpts =
        apply_options opts (record { archive_mode = "preserve"; wrap = false }) in
      record {
        task = new_task now id (name_or name default_upload_name) prepared;
        has_reader = false;
        close_once = false;
        closes = 0;
        timed_out = false;
        prepared_ttl = positive_or ttl 0;
        archive_mode = o.archive_mode;
        wrap = o.wrap;
      }

  unfoldable pub prepare :
      ℕ
      → String
      → String
      → ℤ
      → List PrepareOption
      → UploadTaskManager R
      → Reply String × UploadTaskManager R
  unfolding prune acquire_prepared_slot
  prepare now id name ttl opts m =
      if m.has_exec
      then (let m' : UploadTaskManager R = prune now m in
          elim (acquire_prepared_slot m') [
            | some e ↦ (refused e, m')
            | none ↦ (
              accepted id,
              record m' { tasks = insert id (prepared_task now id name ttl opts) m'.tasks },
            )
          ])
      else (refused not_configured, m)

  abbrev pub job_of : String → TrackedTask R → Job
  job_of name t = record {
    name = name_or name t.task.name;
    archive_mode = t.archive_mode;
    wrap = t.wrap;
  }

  -- `Fulfill` on the entry found, by its state.
  unfoldable pub fulfill_task :
      UploadTaskState
      → ℕ
      → String
      → String
      → TrackedTask R
      → UploadTaskManager R
      → Reply Job × UploadTaskManager R
  unfolding begin
  fulfill_task prepared now id name t m = answer (job_of name t) (begin now t.task m)
  fulfill_task queued now id name t m = (refused (in_progress id), m)
  fulfill_task running now id name t m = (refused (in_progress id), m)
  fulfill_task completed now id name t m = (refused (already_finished id completed), m)
  fulfill_task failed now id name t m = (refused (already_finished id failed), m)
  fulfill_task cancelled now id name t m = (refused (already_finished id cancelled), m)
  fulfill_task expired now id name t m = (refused (cannot_fulfill id expired), m)

  unfoldable pub fulfill :
      ℕ → String → String → UploadTaskManager R → Reply Job × UploadTaskManager R
  unfolding fulfill_task
  fulfill now id name m =
      if m.has_exec
      then elim (lookup id m.tombstones) [
        | some tomb ↦ (refused (handle_expired id), m)
        | none ↦ elim (lookup id m.tasks) [
          | none ↦ (refused (unknown_handle id), m)
          | some t ↦ fulfill_task t.task.state now id name t m
        ]
      ]
      else (refused not_configured, m)

  unfoldable pub get : ℕ → String → UploadTaskManager R → Reply (UploadTask R) × UploadTaskManager R
  unfolding prune
  get now id m =
      let m' : UploadTaskManager R = prune now m in
      elim (lookup id m'.tasks) [
        | some t ↦ (accepted t.task, m')
        | none ↦ elim (lookup id m'.tombstones) [
          | some tomb ↦ (accepted tomb, m')
          | none ↦ (refused (unknown_handle id), m')
        ]
      ]

  abbrev cancel_by_state :
      UploadTaskState → ℕ → String → TrackedTask R → Option UploadError × TrackedTask R
  cancel_by_state prepared now id t = (
    none,
    close_reader (record t { task = record t.task { state = cancelled; finished_at = some now } }),
  )
  cancel_by_state queued now id t = (
    none,
    close_reader (record t { task = record t.task { state = cancelled; finished_at = some now } }),
  )
  cancel_by_state running now id t = (
    none,
    close_reader (record t { task = record t.task { state = cancelled; finished_at = some now } }),
  )
  cancel_by_state s now id t = (some (not_cancellable id s), t)

  -- The reader is closed after the lock is released, at most once in any order (close_once).
  unfoldable pub cancel_task : ℕ → String → TrackedTask R → Option UploadError × TrackedTask R
  unfolding close_reader
  cancel_task now id t = cancel_by_state t.task.state now id t

  unfoldable pub cancel :
      ℕ → String → UploadTaskManager R → Option UploadError × UploadTaskManager R
  unfolding cancel_task
  cancel now id m = elim (lookup id m.tasks) [
    | none ↦ elim (lookup id m.tombstones) [
      | some tomb ↦ (some (already_finished id tomb.state), m)
      | none ↦ (some (unknown_handle id), m)
    ]
    | some t ↦ let (e, t') = cancel_task now id t in (e, record m { tasks = insert id t' m.tasks })
  ]

  unfoldable pub list : ℕ → UploadTaskManager R → List (UploadTask R) × UploadTaskManager R
  unfolding prune exchange_sort
  list now m =
      let m' : UploadTaskManager R = prune now m in
      let out = map (λ (e : String × TrackedTask R). e.1.task) m'.tasks in
      (exchange_sort (length out) out, m')
