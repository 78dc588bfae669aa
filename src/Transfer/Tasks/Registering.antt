-- ===== src/Transfer/Tasks/Registering.antt =====
-- What beginLocked does to the tasks and the tombstones, handle by handle.
use mcpplane.Common.{
  ℕ, ◌≡◌, inl, inr, refl, String, none, some, if◌then◌else◌, lookup, insert, str_eq, Distinct,
  insert-Distinct, lookup-delete, lookup-insert, arith, Option-cases,
}
use mcpplane.Transfer.Tasks.Types.{UploadTask, UploadTaskManager}
use mcpplane.Transfer.Tasks.Prune.{untombstone}
use mcpplane.Transfer.Tasks.Methods.{claimed, register}
use mcpplane.Transfer.Tasks.Evicted.{Disjoint, SameSettings}

module _ {R : Type 0} where
  pub tasks-untombstone :
      (id : String) (m : UploadTaskManager R) → (untombstone id m).tasks ≡ m.tasks
  unfolding untombstone
  tasks-untombstone id m = elim (Option-cases (lookup id m.tombstones)) [
    | inl e ↦ rw (e, untombstone) refl
    | inr (t, e) ↦ rw (e, untombstone) refl
  ]

  pub lookup-untombstone :
      (id j : String) (m : UploadTaskManager R)
      → lookup j (untombstone id m).tombstones
        ≡ (if str_eq id j then none else lookup j m.tombstones)
  unfolding untombstone
  lookup-untombstone id j m = elim (Option-cases (lookup id m.tombstones)) [
    | inl e ↦ ground arith
    | inr (t, e) ↦ ground (arith, lookup-delete id j m.tombstones)
  ]

  pub tasks-register :
      (now : ℕ) (task : UploadTask R) (m : UploadTaskManager R)
      → (register now task m).tasks ≡ insert task.id (claimed now task) m.tasks
  unfolding register
  tasks-register now task m =
      tasks-untombstone task.id (record m { tasks = insert task.id (claimed now task) m.tasks })

  pub lookup-register :
      (now : ℕ) (task : UploadTask R) (j : String) (m : UploadTaskManager R)
      → lookup j (register now task m).tasks
        ≡ (if str_eq task.id j then some (claimed now task) else lookup j m.tasks)
  lookup-register now task j m =
      rw (tasks-register now task m) (lookup-insert task.id j (claimed now task) m.tasks)

  pub register-Distinct :
      (now : ℕ) (task : UploadTask R) (m : UploadTaskManager R)
      → Distinct m.tasks
      → Distinct (register now task m).tasks
  register-Distinct now task m d =
      rw (tasks-register now task m) (insert-Distinct task.id (claimed now task) m.tasks d)

  lookup-register_tombstones :
      (now : ℕ) (task : UploadTask R) (j : String) (m : UploadTaskManager R)
      → lookup j (register now task m).tombstones
        ≡ (if str_eq task.id j then none else lookup j m.tombstones)
  unfolding register
  lookup-register_tombstones now task j m =
      lookup-untombstone task.id j (record m { tasks = insert task.id (claimed now task) m.tasks })

  pub register-Disjoint :
      (now : ℕ) (task : UploadTask R) (m : UploadTaskManager R)
      → Disjoint m
      → Disjoint (register now task m)
  register-Disjoint now task m d j =
      ground (arith, d j, lookup-register now task j m, lookup-register_tombstones now task j m)

  untombstone-SameSettings :
      (id : String) (m : UploadTaskManager R) → SameSettings m (untombstone id m)
  unfolding untombstone
  untombstone-SameSettings id m = elim (Option-cases (lookup id m.tombstones)) [
    | inl e ↦ ground arith
    | inr (t, e) ↦ ground arith
  ]

  pub register-SameSettings :
      (now : ℕ) (task : UploadTask R) (m : UploadTaskManager R)
      → SameSettings m (register now task m)
  unfolding register
  register-SameSettings now task m =
      untombstone-SameSettings task.id
        (record m { tasks = insert task.id (claimed now task) m.tasks })
