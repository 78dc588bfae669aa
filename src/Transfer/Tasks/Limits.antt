-- ===== src/Transfer/Tasks/Limits.antt =====
-- The limits of the manager hold over its whole life.
use mcpplane.Common.{
  ℕ, ◌≤◌, ◌≡◌, ◌≢◌, inl, inr, refl, sym, String, Bool, none, List, [], Dict, lookup, arith,
  Option-cases, ℤ,
}
use mathlib.Core.Path.{subst}
use mcpplane.Transfer.Tasks.Types.{
  UploadTaskState, queued, UploadTask, TrackedTask, UploadTaskManager, name_or, default_upload_name,
}
use mcpplane.Transfer.Tasks.Slots.{acquire_slot, acquire_prepared_slot}
use mcpplane.Transfer.Tasks.Prune.{prune}
use mcpplane.Transfer.Tasks.Methods.{
  PrepareOption, new_task, claimed, prepared_task, cancel_task, list,
}
use mcpplane.Transfer.Tasks.Worker.{on_task, begin_run, expire_run, complete}
use mcpplane.Transfer.Tasks.System.{
  System, with_manager, Step, Reach, here, next, start_step, prepare_step, fulfill_step, get_step,
  cancel_step, list_step, run_step, expire_step, complete_step,
}
use mcpplane.Transfer.Tasks.Evicted.{}
use mcpplane.Transfer.Tasks.Lifecycle.{}
use mcpplane.Transfer.Tasks.Steps.{
  launched, starts-cases, fulfills-cases, reserved, prepares-cases, cancel-on_task, get-prune,
}
use mcpplane.Common.{tally}
use mcpplane.Transfer.Tasks.Types.{is_active, is_prepared}
use mcpplane.Transfer.Tasks.Evicted.{prune-tally, prune-SameSettings, SameSettings}
use mcpplane.Transfer.Tasks.Registering.{tasks-register, register-SameSettings}
use mcpplane.Transfer.Tasks.Population.{
  weight, population, acquire_slot-population, acquire_prepared_slot-population, population-insert,
  population-on_task, begin_run-weight, expire_run-weight, complete-weight, cancel_task-weight,
}

module _ {R : Type 0} where
  -- The limits are as given, and kept.
  abbrev pub Within : ℕ → ℕ → UploadTaskManager R → Type 0
  Within a p m =
      (m.max_active ≡ a)
      × (m.max_prepared ≡ p)
      × (population is_active m.tasks ≤ a)
      × (population is_prepared m.tasks ≤ p)

  prune-Within : (a p now : ℕ) (m : UploadTaskManager R) → Within a p m → Within a p (prune now m)
  unfolding population
  prune-Within a p now m w = ground (
    arith,
    prune-SameSettings now m,
    prune-tally (weight is_active) now m,
    prune-tally (weight is_prepared) now m,
  )

  launched-Within :
      (a p now : ℕ) (id : String) (task : UploadTask R) (s : System R)
      → a ≢ 0
      → acquire_slot s.manager ≡ none
      → Within a p s.manager
      → Within a p (launched now id task s).manager
  launched-Within a p now id task s n h w = rw (tasks-register now task s.manager) (
      ground (
        arith,
        register-SameSettings now task s.manager,
        acquire_slot-population s.manager,
        population-insert is_active task.id (claimed now task) s.manager.tasks,
        population-insert is_prepared task.id (claimed now task) s.manager.tasks,
      ))

  reserved-Within :
      (a p now : ℕ) (id name : String) (ttl : ℤ) (opts : List PrepareOption) (s : System R)
      → p ≢ 0
      → acquire_prepared_slot s.manager ≡ none
      → Within a p s.manager
      → Within a p (reserved id (prepared_task now id name ttl opts) s).manager
  reserved-Within a p now id name ttl opts s n h w = ground (
    arith,
    acquire_prepared_slot-population s.manager,
    population-insert is_active id (prepared_task now id name ttl opts) s.manager.tasks,
    population-insert is_prepared id (prepared_task now id name ttl opts) s.manager.tasks,
  )

  on_task-SameSettings :
      (f : TrackedTask R → TrackedTask R) (id : String) (m : UploadTaskManager R)
      → SameSettings m (on_task f id m)
  unfolding on_task
  on_task-SameSettings f id m = elim (Option-cases (lookup id m.tasks)) [
    | inl e ↦ ground arith
    | inr (t, e) ↦ ground arith
  ]

  on_task-Within :
      (a p : ℕ) (f : TrackedTask R → TrackedTask R) (id : String) (m : UploadTaskManager R)
      → ((t : TrackedTask R)
          → (weight is_active (f t) ≤ weight is_active t)
            × (weight is_prepared (f t) ≤ weight is_prepared t))
      → Within a p m
      → Within a p (on_task f id m)
  on_task-Within a p f id m h w = ground (
    arith,
    on_task-SameSettings f id m,
    population-on_task is_active f id m (λ t. (h t).0),
    population-on_task is_prepared f id m (λ t. (h t).1),
  )

  Step-Within :
      (a p : ℕ) (s s' : System R)
      → a ≢ 0
      → p ≢ 0
      → Step s s'
      → Within a p s.manager
      → Within a p s'.manager
  Step-Within a p s s' n k (start_step now id name f) w = elim (starts-cases now id name s) [
    | inl q ↦ subst (λ u. Within a p u.manager) (sym q) w
    | inr (inl q) ↦ subst (λ u. Within a p u.manager) (sym q) (prune-Within a p now s.manager w)
    | inr (inr (h, q)) ↦
        subst (λ u. Within a p u.manager) (sym q)
          (launched-Within a p now id (new_task now id (name_or name default_upload_name) queued)
            (with_manager (prune now s.manager) s) n h (prune-Within a p now s.manager w))
  ]
  Step-Within a p s s' n k (prepare_step now id name ttl opts f) w =
      elim (prepares-cases now id name ttl opts s) [
        | inl q ↦ subst (λ u. Within a p u.manager) (sym q) w
        | inr (inl q) ↦ subst (λ u. Within a p u.manager) (sym q) (prune-Within a p now s.manager w)
        | inr (inr (h, q)) ↦
            subst (λ u. Within a p u.manager) (sym q)
              (reserved-Within a p now id name ttl opts (with_manager (prune now s.manager) s) k h
                (prune-Within a p now s.manager w))
      ]
  Step-Within a p s s' n k (fulfill_step now id name) w = elim (fulfills-cases now id name s) [
    | inl q ↦ subst (λ u. Within a p u.manager) (sym q) w
    | inr (inl q) ↦ subst (λ u. Within a p u.manager) (sym q) (prune-Within a p now s.manager w)
    | inr (inr (t, e, r, h, q)) ↦
        subst (λ u. Within a p u.manager) (sym q)
          (launched-Within a p now id t.task (with_manager (prune now s.manager) s) n h
            (prune-Within a p now s.manager w))
  ]
  Step-Within a p s s' n k (get_step now id) w =
      subst (Within a p) (sym (get-prune now id s.manager)) (prune-Within a p now s.manager w)
  Step-Within a p s s' n k (cancel_step now id) w =
      subst (Within a p) (sym (cancel-on_task now id s.manager)) (
        on_task-Within a p (λ t. (cancel_task now id t).1) id s.manager (cancel_task-weight now id)
          w)
  Step-Within a p s s' n k (list_step now) w = unfold list in (prune-Within a p now s.manager w)
  Step-Within a p s s' n k (run_step now id h) w =
      on_task-Within a p (begin_run now) id s.manager (begin_run-weight now) w
  Step-Within a p s s' n k (expire_step now id h) w =
      on_task-Within a p (expire_run now) id s.manager (expire_run-weight now) w
  Step-Within a p s s' n k (complete_step now id r h) w =
      on_task-Within a p (complete now r) id s.manager (complete-weight now r) w

  Reach-Within :
      (a p : ℕ) (s s' : System R)
      → a ≢ 0
      → p ≢ 0
      → Within a p s.manager
      → Reach s s'
      → Within a p s'.manager
  Reach-Within a p s s' n k w here = w
  Reach-Within a p s s' n k w (next {t = u} r st) =
      Step-Within a p u s' n k st (Reach-Within a p s u n k w r)

  population-empty :
      (counted : UploadTaskState → Bool) (b : ℕ) (m : Dict (TrackedTask R))
      → m ≡ []
      → population counted m ≤ b
  unfolding population tally
  population-empty counted b m e = ground arith

  -- A manager that starts without tasks and with limits other than 0 never has more queued and
  -- running tasks than its MaxActive, and never more prepared ones than its MaxPrepared, whatever
  -- the order of its calls, its goroutines and their watchdogs.
  pub Reach-population :
      (s s' : System R)
      → s.manager.tasks ≡ []
      → s.manager.max_active ≢ 0
      → s.manager.max_prepared ≢ 0
      → Reach s s'
      → (population is_active s'.manager.tasks ≤ s.manager.max_active)
        × (population is_prepared s'.manager.tasks ≤ s.manager.max_prepared)
  Reach-population s s' e n k r =
      let w =
        Reach-Within s.manager.max_active s.manager.max_prepared s s' n k
          (
            refl,
            refl,
            population-empty is_active s.manager.max_active s.manager.tasks e,
            population-empty is_prepared s.manager.max_prepared s.manager.tasks e,
          )
          r in
      (w.2, w.3)
