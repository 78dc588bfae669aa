-- ===== src/Transfer/Tasks/Worker.antt =====
-- transfer/upload_tasks.go: the goroutine of `spawn` and the watchdog of its execution timeout. Each
-- critical section is a step on the entry under the handle, and the scheduler orders the steps of
-- the goroutine, of the watchdog and of the methods as it likes. The executor runs between
-- `begin_run` and `complete`; what it returns is given.
use mcpplane.Common.{
  ℕ, String, Bool, true, false, ◌||◌, Option, none, some, if◌then◌else◌, lookup, insert,
}
use mcpplane.Transfer.Tasks.Types.{
  UploadTaskState, queued, running, completed, failed, cancelled, UploadTask, TrackedTask,
  UploadTaskManager, exec_timeout_message, close_reader, is_active,
}

-- What the executor returns: a result, or an error by what errors.Is finds in it.
pub data ExecResult (R : Type 0) : Type 0 where
  succeeded : Option R → ExecResult R
  deadline_exceeded context_canceled : Option R → ExecResult R
  failed_with : Option R → String → ExecResult R

abbrev pub is_cancelled : UploadTaskState → Bool
is_cancelled cancelled = true
is_cancelled _ = false

module _ {R : Type 0} where
  -- A step of the goroutine or the watchdog on its task.
  unfoldable pub on_task :
      (TrackedTask R → TrackedTask R) → String → UploadTaskManager R → UploadTaskManager R
  on_task f id m = elim (lookup id m.tasks) [
    | none ↦ m
    | some t ↦ record m { tasks = insert id (f t) m.tasks }
  ]

  abbrev run_by_state : UploadTaskState → ℕ → TrackedTask R → TrackedTask R
  run_by_state queued now t = record t {
    task = record t.task { started_at = some now; state = running };
  }
  run_by_state _ now t = t

  -- The goroutine's first section: it gives up a task that is no longer queued.
  unfoldable pub begin_run : ℕ → TrackedTask R → TrackedTask R
  begin_run now t = run_by_state t.task.state now t

  -- The watchdog: it closes the reader and fails a task that has not finished.
  unfoldable pub expire_run : ℕ → TrackedTask R → TrackedTask R
  unfolding close_reader
  expire_run now t =
      let t' : TrackedTask R = close_reader t in
      if is_active t.task.state
      then record t' {
        timed_out = true;
        task = record t.task { state = failed; err = exec_timeout_message; finished_at = some now };
      }
      else t'

  -- The outcome that the goroutine records: the result, the state and the error text.
  unfoldable pub outcome : UploadTaskState → ExecResult R → UploadTask R → UploadTask R
  outcome s (succeeded r) task = record task { result = r; state = completed }
  outcome s (deadline_exceeded r) task = record task {
    result = r;
    state = failed;
    err = exec_timeout_message;
  }
  outcome cancelled (context_canceled r) task = record task {
    result = r;
    state = cancelled;
    err = "";
  }
  outcome s (context_canceled r) task = record task {
    result = r;
    state = failed;
    err = exec_timeout_message;
  }
  outcome s (failed_with r e) task = record task { result = r; state = failed; err = e }

  -- The goroutine's last section, with the close of the reader behind it.
  unfoldable pub complete : ℕ → ExecResult R → TrackedTask R → TrackedTask R
  unfolding close_reader outcome
  complete now r t = close_reader (
      if is_cancelled t.task.state || t.timed_out
      then t
      else record t { task = record (outcome t.task.state r t.task) { finished_at = some now } })
