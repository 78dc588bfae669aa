-- ===== src/Transfer/Tasks/Finality.antt =====
-- A task that has finished keeps what it finished with.
use mcpplane.Common.{
  ℕ, ◌≡◌, ◌⊎◌, inl, inr, sym, String, Bool, true, false, Option, none, some, lookup, insert, str_eq,
  Distinct, lookup-insert, arith, Option-cases, ℤ,
}
use mathlib.Core.Path.{subst}
use mcpplane.Transfer.Tasks.Types.{
  prepared, queued, UploadTask, TrackedTask, UploadTaskManager, close_reader, name_or,
  default_upload_name,
}
use mcpplane.Transfer.Tasks.Prune.{prune}
use mcpplane.Transfer.Tasks.Methods.{new_task, register, prepared_task, cancel_task, list}
use mcpplane.Transfer.Tasks.Worker.{ExecResult, on_task, begin_run, expire_run, complete, outcome}
use mcpplane.Transfer.Tasks.System.{
  executing, System, Step, Reach, initial, start_step, prepare_step, fulfill_step, get_step,
  cancel_step, list_step, run_step, expire_step, complete_step,
}
use mcpplane.Transfer.Tasks.Evicted.{lookup-prune}
use mcpplane.Transfer.Tasks.Lifecycle.{Entry, IsValid}
use mcpplane.Transfer.Tasks.Registering.{lookup-register}
use mcpplane.Transfer.Tasks.Steps.{
  starts-cases, fulfills-cases, prepares-cases, cancel-on_task, get-prune,
}
use mcpplane.Transfer.Tasks.Types.{is_terminal}
use mcpplane.Transfer.Tasks.Safety.{id-Entry, Reach-IsValid}
use mcpplane.Common.{str_eq_iff}
use mcpplane.Transfer.Tasks.Lifecycle.{lookup-on_task}

-- A snapshot of a finished task.
abbrev pub Terminal : {R : Type 0} → UploadTask R → Type 0
Terminal task = is_terminal task.state ≡ true

module _ {R : Type 0} where
  -- What `Get` shows under a handle without a prune.
  unfoldable pub snapshot : String → UploadTaskManager R → Option (UploadTask R)
  snapshot id m = elim (lookup id m.tasks) [ none ↦ none | some t ↦ some t.task ]

  -- The handle shows this task, or none.
  abbrev pub Settled : String → UploadTask R → UploadTaskManager R → Type 0
  Settled id task m = (snapshot id m ≡ none) ⊎ (snapshot id m ≡ some task)

  prune-Settled :
      (now : ℕ) (id : String) (task : UploadTask R) (m : UploadTaskManager R)
      → Distinct m.tasks
      → snapshot id m ≡ some task
      → Settled id task (prune now m)
  unfolding snapshot
  prune-Settled now id task m d h = ground (arith, lookup-prune now id m d)

  on_task-Settled :
      (f : TrackedTask R → TrackedTask R) (i id : String) (task : UploadTask R)
      (m : UploadTaskManager R)
      → snapshot id m ≡ some task
      → ((t : TrackedTask R) → lookup id m.tasks ≡ some t → i ≡ id → (f t).task ≡ t.task)
      → Settled id task (on_task f i m)
  unfolding snapshot
  on_task-Settled f i id task m h k = elim (Option-cases (lookup id m.tasks)) [
    | inl e ↦ ground (arith, lookup-on_task f i id m)
    | inr (t, e) ↦ ground (arith, lookup-on_task f i id m, k t e)
  ]

  -- No section of a goroutine, watchdog or cancellation changes a finished task.
  begin_run-Terminal :
      (now : ℕ) (t : TrackedTask R) → Terminal t.task → (begin_run now t).task ≡ t.task
  unfolding begin_run
  begin_run-Terminal now t h = ground arith

  expire_run-Terminal :
      (now : ℕ) (t : TrackedTask R) → Terminal t.task → (expire_run now t).task ≡ t.task
  unfolding expire_run close_reader
  expire_run-Terminal now t h = ground arith

  cancel_task-Terminal :
      (now : ℕ) (id : String) (t : TrackedTask R)
      → Terminal t.task
      → (cancel_task now id t).1.task ≡ t.task
  unfolding cancel_task close_reader
  cancel_task-Terminal now id t h = ground arith

  complete-Terminal :
      (now : ℕ) (id : String) (r : ExecResult R) (t : TrackedTask R)
      → Entry id (some executing) (some t)
      → Terminal t.task
      → (complete now r t).task ≡ t.task
  unfolding complete close_reader outcome
  complete-Terminal now id r t e h = ground arith

  register-Settled :
      (now : ℕ) (tk : UploadTask R) (id : String) (task : UploadTask R) (m : UploadTaskManager R)
      → str_eq tk.id id ≡ false
      → Settled id task m
      → Settled id task (register now tk m)
  unfolding snapshot
  register-Settled now tk id task m n h = ground (arith, lookup-register now tk id m)

  insert-Settled :
      (i : String) (t : TrackedTask R) (id : String) (task : UploadTask R) (m : UploadTaskManager R)
      → str_eq i id ≡ false
      → Settled id task m
      → Settled id task (record m { tasks = insert i t m.tasks })
  unfolding snapshot
  insert-Settled i t id task m n h = ground (arith, lookup-insert i id t m.tasks)

  -- A handle with a finished task is no fresh one and has no prepared task.
  not_fresh :
      (i id : String) (task : UploadTask R) (m : UploadTaskManager R)
      → lookup i m.tasks ≡ none
      → snapshot id m ≡ some task
      → str_eq i id ≡ false
  unfolding snapshot
  not_fresh i id task m e h = ground (arith, str_eq_iff i id)

  not_prepared :
      (i id : String) (t : TrackedTask R) (task : UploadTask R) (m : UploadTaskManager R)
      → lookup i m.tasks ≡ some t
      → t.task.state ≡ prepared
      → Terminal task
      → snapshot id m ≡ some task
      → str_eq i id ≡ false
  unfolding snapshot
  not_prepared i id t task m e p d h = ground (arith, str_eq_iff i id)

  snapshot-lookup :
      (id : String) (task : UploadTask R) (m : UploadTaskManager R) (t : TrackedTask R)
      → snapshot id m ≡ some task
      → lookup id m.tasks ≡ some t
      → t.task ≡ task
  unfolding snapshot
  snapshot-lookup id task m t h e = ground arith

  section-Settled :
      (f : TrackedTask R → TrackedTask R) (i id : String) (task : UploadTask R) (s : System R)
      → IsValid s
      → Terminal task
      → snapshot id s.manager ≡ some task
      → ((t : TrackedTask R)
          → Entry i (lookup i s.phases) (some t)
          → Terminal t.task
          → (f t).task ≡ t.task)
      → Settled id task (on_task f i s.manager)
  section-Settled f i id task s v d h k = on_task-Settled f i id task s.manager h (λ t e q.
      k t (id-Entry s i t v (subst (λ j. lookup j s.manager.tasks ≡ some t) (sym q) e))
        (subst Terminal (sym (snapshot-lookup id task s.manager t h e)) d))

  Step-Settled :
      (s s' : System R) (id : String) (task : UploadTask R)
      → IsValid s
      → Step s s'
      → Terminal task
      → snapshot id s.manager ≡ some task
      → Settled id task s'.manager
  Step-Settled s s' id task v (start_step now i name f) d h = elim (starts-cases now i name s) [
    | inl q ↦ subst (λ u. Settled id task u.manager) (sym q) (inr h)
    | inr (inl q) ↦
        subst (λ u. Settled id task u.manager) (sym q)
          (prune-Settled now id task s.manager v.distinct h)
    | inr (inr (a, q)) ↦
        subst (λ u. Settled id task u.manager) (sym q)
          (register-Settled now (new_task now i (name_or name default_upload_name) queued) id task
            (prune now s.manager) (not_fresh i id task s.manager f.no_task h)
            (prune-Settled now id task s.manager v.distinct h))
  ]
  Step-Settled s s' id task v (prepare_step now i name ttl opts f) d h =
      elim (prepares-cases now i name ttl opts s) [
        | inl q ↦ subst (λ u. Settled id task u.manager) (sym q) (inr h)
        | inr (inl q) ↦
            subst (λ u. Settled id task u.manager) (sym q)
              (prune-Settled now id task s.manager v.distinct h)
        | inr (inr (a, q)) ↦
            subst (λ u. Settled id task u.manager) (sym q)
              (insert-Settled i (prepared_task now i name ttl opts) id task (prune now s.manager)
                (not_fresh i id task s.manager f.no_task h)
                (prune-Settled now id task s.manager v.distinct h))
      ]
  Step-Settled s s' id task v (fulfill_step now i name) d h = elim (fulfills-cases now i name s) [
    | inl q ↦ subst (λ u. Settled id task u.manager) (sym q) (inr h)
    | inr (inl q) ↦
        subst (λ u. Settled id task u.manager) (sym q)
          (prune-Settled now id task s.manager v.distinct h)
    | inr (inr (t, e, p, a, q)) ↦
        subst (λ u. Settled id task u.manager) (sym q)
          (register-Settled now t.task id task (prune now s.manager)
            (subst (λ j. str_eq j id ≡ false) (sym (id-Entry s i t v e).0)
              (not_prepared i id t task s.manager e p d h))
            (prune-Settled now id task s.manager v.distinct h))
  ]
  Step-Settled s s' id task v (get_step now i) d h =
      subst (Settled id task) (sym (get-prune now i s.manager))
        (prune-Settled now id task s.manager v.distinct h)
  Step-Settled s s' id task v (cancel_step now i) d h =
      subst (Settled id task) (sym (cancel-on_task now i s.manager)) (
        section-Settled (λ t. (cancel_task now i t).1) i id task s v d h
          (λ t e g. cancel_task-Terminal now i t g))
  Step-Settled s s' id task v (list_step now) d h =
      unfold list in (prune-Settled now id task s.manager v.distinct h)
  Step-Settled s s' id task v (run_step now i w) d h =
      section-Settled (begin_run now) i id task s v d h (λ t e g. begin_run-Terminal now t g)
  Step-Settled s s' id task v (expire_step now i w) d h =
      section-Settled (expire_run now) i id task s v d h (λ t e g. expire_run-Terminal now t g)
  Step-Settled s s' id task v (complete_step now i r w) d h =
      section-Settled (complete now r) i id task s v d h
        (λ t e g. complete-Terminal now i r t (rw w at e) g)

  -- In a state that the upload manager reaches from a new one, a task that has completed, failed
  -- or been cancelled is final: after one more step of any kind its handle shows the same task,
  -- with its result, error text and time of finish, or no task.
  pub Reach-Settled :
      (exec : Bool) (ttl : ℤ) (s s' : System R) (id : String) (task : UploadTask R)
      → Reach (initial {R = R} exec ttl) s
      → Terminal task
      → snapshot id s.manager ≡ some task
      → Step s s'
      → Settled id task s'.manager
  Reach-Settled exec ttl s s' id task r d h st =
      Step-Settled s s' id task (Reach-IsValid exec ttl s r) st d h
