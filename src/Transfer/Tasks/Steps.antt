-- ===== src/Transfer/Tasks/Steps.antt =====
-- What the calls of the manager leave: nothing new, a pruned state, or one with one more entry.
use mcpplane.Common.{
  ℕ, ◌≡◌, ◌⊎◌, inl, inr, refl, String, none, some, List, lookup, insert, lookup-insert, arith,
  str_eq_self, Option-cases, Bool-cases, ℤ,
}
use mathlib.Core.Path.{subst}
use mcpplane.Transfer.Tasks.Types.{
  UploadTaskState, prepared, queued, running, completed, failed, cancelled, expired, UploadTask,
  TrackedTask, UploadTaskManager, UploadError, in_progress, already_finished, cannot_fulfill,
  name_or, default_upload_name,
}
use mcpplane.Transfer.Tasks.Slots.{acquire_slot, acquire_prepared_slot}
use mcpplane.Transfer.Tasks.Prune.{prune}
use mcpplane.Transfer.Tasks.Methods.{
  PrepareOption, new_task, register, begin, start, prepared_task, prepare, fulfill_task, fulfill,
  job_of, answer, refused, get, cancel_task, cancel,
}
use mcpplane.Transfer.Tasks.Worker.{on_task}
use mcpplane.Transfer.Tasks.System.{waiting, System, starts, fulfills, with_manager}
use mcpplane.Transfer.Tasks.Lifecycle.{IsValid, update-IsValid}
use mcpplane.Transfer.Tasks.Registering.{register-Distinct, register-Disjoint, lookup-register}

module _ {R : Type 0} where
  -- What an upload that goes through `beginLocked` leaves.
  abbrev pub launched : ℕ → String → UploadTask R → System R → System R
  launched now id task s = record {
    manager = register now task s.manager;
    phases = insert id waiting s.phases;
  }

  pub launched-IsValid :
      (now : ℕ) (id : String) (task : UploadTask R) (s : System R)
      → task.id ≡ id
      → IsValid s
      → IsValid (launched now id task s)
  launched-IsValid now id task s q v =
      subst (λ i. IsValid (launched now i task s)) q
        (update-IsValid task.id s (launched now task.id task s) v
          (register-Distinct now task s.manager v.distinct)
          (register-Disjoint now task s.manager v.disjoint)
          (λ j n. (
            ground (arith, lookup-register now task j s.manager),
            ground (arith, lookup-insert task.id j waiting s.phases),
          ))
          (rw
            (
              lookup-register now task task.id s.manager,
              lookup-insert task.id task.id waiting s.phases,
              str_eq_self task.id,
            )
            (refl, (refl, refl), omega arith)))

  pub starts-cases :
      (now : ℕ) (id name : String) (s : System R)
      → (starts now id name s ≡ s)
        ⊎ ((starts now id name s ≡ with_manager (prune now s.manager) s)
            ⊎ ((acquire_slot (prune now s.manager) ≡ none)
                × (starts now id name s
                    ≡ launched now id
                        (new_task now id (name_or name default_upload_name) queued)
                        (with_manager (prune now s.manager) s))))
  unfolding starts start begin
  starts-cases now id name s = elim (Bool-cases s.manager.has_exec) [
    | inl on ↦ elim (Option-cases (acquire_slot (prune now s.manager))) [
      | inl e ↦ inr (inr (e, ground arith))
      | inr (x, e) ↦ inr (inl (ground arith))
    ]
    | inr off ↦ inl (ground arith)
  ]

  pub fulfill_task-cases :
      (st : UploadTaskState) (now : ℕ) (id name : String) (t : TrackedTask R)
      (m : UploadTaskManager R)
      → ((e : UploadError) × (fulfill_task st now id name t m ≡ (refused e, m))) ⊎ (st ≡ prepared)
  unfolding fulfill_task
  fulfill_task-cases prepared now id name t m = inr refl
  fulfill_task-cases queued now id name t m = inl (in_progress id, refl)
  fulfill_task-cases running now id name t m = inl (in_progress id, refl)
  fulfill_task-cases completed now id name t m = inl (already_finished id completed, refl)
  fulfill_task-cases failed now id name t m = inl (already_finished id failed, refl)
  fulfill_task-cases cancelled now id name t m = inl (already_finished id cancelled, refl)
  fulfill_task-cases expired now id name t m = inl (cannot_fulfill id expired, refl)

  fulfill_task-prepared :
      (now : ℕ) (id name : String) (t : TrackedTask R) (m : UploadTaskManager R)
      → fulfill_task prepared now id name t m ≡ answer (job_of name t) (begin now t.task m)
  unfolding fulfill_task
  fulfill_task-prepared now id name t m = refl

  pub fulfills-cases :
      (now : ℕ) (id name : String) (s : System R)
      → (fulfills now id name s ≡ s)
        ⊎ ((fulfills now id name s ≡ with_manager (prune now s.manager) s)
            ⊎ ((t : TrackedTask R) × (lookup id s.manager.tasks ≡ some t)
                × (t.task.state ≡ prepared)
                × (acquire_slot (prune now s.manager) ≡ none)
                × (fulfills now id name s
                    ≡ launched now id t.task (with_manager (prune now s.manager) s))))
  unfolding fulfills fulfill begin
  fulfills-cases now id name s = elim (Bool-cases s.manager.has_exec) [
    | inr off ↦ inl (ground arith)
    | inl on ↦ elim (Option-cases (lookup id s.manager.tombstones)) [
      | inr (tomb, h) ↦ inl (ground arith)
      | inl h ↦ elim (Option-cases (lookup id s.manager.tasks)) [
        | inl e ↦ inl (ground arith)
        | inr (t, e) ↦ elim (fulfill_task-cases t.task.state now id name t s.manager) [
          | inl (x, r) ↦ inl (ground arith)
          | inr p ↦ elim (Option-cases (acquire_slot (prune now s.manager))) [
            | inl a ↦
                inr
                  (inr (t, e, p, a, ground (arith, fulfill_task-prepared now id name t s.manager)))
            | inr (x, a) ↦ inr (inl (ground (arith, fulfill_task-prepared now id name t s.manager)))
          ]
        ]
      ]
    ]
  ]

  -- The state with one more prepared task.
  abbrev pub reserved : String → TrackedTask R → System R → System R
  reserved id t s = with_manager (record s.manager { tasks = insert id t s.manager.tasks }) s

  pub prepares-cases :
      (now : ℕ) (id name : String) (ttl : ℤ) (opts : List PrepareOption) (s : System R)
      → (with_manager (prepare now id name ttl opts s.manager).1 s ≡ s)
        ⊎ ((with_manager (prepare now id name ttl opts s.manager).1 s
              ≡ with_manager (prune now s.manager) s)
            ⊎ ((acquire_prepared_slot (prune now s.manager) ≡ none)
                × (with_manager (prepare now id name ttl opts s.manager).1 s
                    ≡ reserved id
                        (prepared_task now id name ttl opts)
                        (with_manager (prune now s.manager) s))))
  unfolding prepare
  prepares-cases now id name ttl opts s = elim (Bool-cases s.manager.has_exec) [
    | inl on ↦ elim (Option-cases (acquire_prepared_slot (prune now s.manager))) [
      | inl e ↦ inr (inr (e, ground arith))
      | inr (x, e) ↦ inr (inl (ground arith))
    ]
    | inr off ↦ inl (ground arith)
  ]

  pub cancel-on_task :
      (now : ℕ) (id : String) (m : UploadTaskManager R)
      → (cancel now id m).1 ≡ on_task (λ t. (cancel_task now id t).1) id m
  unfolding cancel on_task
  cancel-on_task now id m = elim (Option-cases (lookup id m.tasks)) [
    | inl e ↦ ground arith
    | inr (t, e) ↦ ground arith
  ]

  pub get-prune : (now : ℕ) (id : String) (m : UploadTaskManager R) → (get now id m).1 ≡ prune now m
  unfolding get
  get-prune now id m = elim (Option-cases (lookup id (prune now m).tasks)) [
    | inl e ↦ ground arith
    | inr (t, e) ↦ ground arith
  ]
