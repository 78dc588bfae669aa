-- ===== src/Transfer/Tasks/Safety.antt =====
-- Every step of the upload system keeps its invariant.
use mcpplane.Common.{
  ℕ, ◌≡◌, inl, inr, refl, sym, String, Bool, none, some, List, lookup, insert, insert-Distinct,
  lookup-insert, arith, str_eq_self, ℤ,
}
use mathlib.Core.Path.{subst}
use mcpplane.Transfer.Tasks.Types.{TrackedTask, new_upload_task_manager}
use mcpplane.Transfer.Tasks.Prune.{prune}
use mcpplane.Transfer.Tasks.Methods.{PrepareOption, prepared_task, cancel_task, list}
use mcpplane.Transfer.Tasks.Worker.{begin_run, expire_run, complete}
use mcpplane.Transfer.Tasks.System.{
  after_begin, finished, System, starts, fulfills, with_manager, Step, Reach, here, next, initial,
  start_step, prepare_step, fulfill_step, get_step, cancel_step, list_step, run_step, expire_step,
  complete_step,
}
use mcpplane.Transfer.Tasks.Evicted.{prune-unused}
use mcpplane.Transfer.Tasks.Lifecycle.{
  Entry, IsValid, prune-IsValid, update-IsValid, on_task-IsValid, begin_run-Entry, expire_run-Entry,
  complete-Entry, cancel_task-Entry,
}
use mcpplane.Transfer.Tasks.Steps.{
  launched-IsValid, starts-cases, fulfills-cases, reserved, prepares-cases, cancel-on_task,
  get-prune,
}

module _ {R : Type 0} where
  starts-IsValid :
      (now : ℕ) (id name : String) (s : System R) → IsValid s → IsValid (starts now id name s)
  starts-IsValid now id name s v = elim (starts-cases now id name s) [
    | inl q ↦ subst IsValid (sym q) v
    | inr (inl q) ↦ subst IsValid (sym q) (prune-IsValid now s v)
    | inr (inr (a, q)) ↦ subst IsValid (sym q) (
        launched-IsValid now id _ (with_manager (prune now s.manager) s) refl
          (prune-IsValid now s v))
  ]

  -- The map files a task under its own handle.
  pub id-Entry :
      (s : System R) (id : String) (t : TrackedTask R)
      → IsValid s
      → lookup id s.manager.tasks ≡ some t
      → Entry id (lookup id s.phases) (some t)
  id-Entry s id t v e = rw e at (v.entries id)

  fulfills-IsValid :
      (now : ℕ) (id name : String) (s : System R) → IsValid s → IsValid (fulfills now id name s)
  fulfills-IsValid now id name s v = elim (fulfills-cases now id name s) [
    | inl q ↦ subst IsValid (sym q) v
    | inr (inl q) ↦ subst IsValid (sym q) (prune-IsValid now s v)
    | inr (inr (t, e, p, a, q)) ↦ subst IsValid (sym q) (
        launched-IsValid now id t.task (with_manager (prune now s.manager) s)
          (id-Entry s id t v e).0 (prune-IsValid now s v))
  ]

  reserved-IsValid :
      (now : ℕ) (id name : String) (ttl : ℤ) (opts : List PrepareOption) (s : System R)
      → lookup id s.manager.tombstones ≡ none
      → lookup id s.phases ≡ none
      → IsValid s
      → IsValid (reserved id (prepared_task now id name ttl opts) s)
  reserved-IsValid now id name ttl opts s b p v =
      update-IsValid id s (reserved id (prepared_task now id name ttl opts) s) v
        (insert-Distinct id (prepared_task now id name ttl opts) s.manager.tasks v.distinct)
        (λ j. ground (
          arith,
          v.disjoint j,
          lookup-insert id j (prepared_task now id name ttl opts) s.manager.tasks,
        ))
        (λ j n. (
          ground (arith, lookup-insert id j (prepared_task now id name ttl opts) s.manager.tasks),
          refl,
        ))
        (rw
          (
            lookup-insert id id (prepared_task now id name ttl opts) s.manager.tasks,
            str_eq_self id,
            p,
          )
          (refl, (refl, refl, refl), omega arith))

  Step-IsValid : (s s' : System R) → Step s s' → IsValid s → IsValid s'
  Step-IsValid s s' (start_step now id name f) v = starts-IsValid now id name s v
  Step-IsValid s s' (prepare_step now id name ttl opts f) v =
      elim (prepares-cases now id name ttl opts s) [
        | inl q ↦ subst IsValid (sym q) v
        | inr (inl q) ↦ subst IsValid (sym q) (prune-IsValid now s v)
        | inr (inr (a, q)) ↦ subst IsValid (sym q) (
            reserved-IsValid now id name ttl opts (with_manager (prune now s.manager) s)
              (prune-unused now id s.manager f.no_task f.no_tombstone) f.no_phase
              (prune-IsValid now s v))
      ]
  Step-IsValid s s' (fulfill_step now id name) v = fulfills-IsValid now id name s v
  Step-IsValid s s' (get_step now id) v =
      subst (λ m. IsValid (with_manager m s)) (sym (get-prune now id s.manager))
        (prune-IsValid now s v)
  Step-IsValid s s' (cancel_step now id) v =
      subst (λ m. IsValid (with_manager m s)) (sym (cancel-on_task now id s.manager))
        (on_task-IsValid (λ t. (cancel_task now id t).1) id s.phases s v (λ j n. refl)
          (λ t e h. cancel_task-Entry now id (lookup id s.phases) t h))
  Step-IsValid s s' (list_step now) v = unfold list in (prune-IsValid now s v)
  Step-IsValid s s' (run_step now id w) v =
      on_task-IsValid (begin_run now) id
        (insert id (after_begin (lookup id s.manager.tasks)) s.phases) s v
        (λ j n.
          ground (arith, lookup-insert id j (after_begin (lookup id s.manager.tasks)) s.phases))
        (λ t e h.
          rw
            (
              lookup-insert id id (after_begin (lookup id s.manager.tasks)) s.phases,
              str_eq_self id,
              e,
            )
            (begin_run-Entry now id t (rw w at h)))
  Step-IsValid s s' (expire_step now id w) v =
      on_task-IsValid (expire_run now) id s.phases s v (λ j n. refl)
        (λ t e h. expire_run-Entry now id (lookup id s.phases) t w h)
  Step-IsValid s s' (complete_step now id r w) v =
      on_task-IsValid (complete now r) id (insert id finished s.phases) s v
        (λ j n. ground (arith, lookup-insert id j finished s.phases))
        (λ t e h.
          rw (lookup-insert id id finished s.phases, str_eq_self id)
            (complete-Entry now id r t (rw w at h)))

  initial-IsValid : (exec : Bool) (ttl : ℤ) → IsValid (initial {R = R} exec ttl)
  unfolding new_upload_task_manager lookup
  initial-IsValid exec ttl = record { entries = λ j. tt; distinct = tt; disjoint = λ j. inl refl }

  -- In every state that an upload manager reaches from a new one, by any sequence of Start,
  -- Prepare, Fulfill, Get, Cancel and List calls with unused new handles, of sections of the
  -- upload goroutines and of watchdog firings, each handle is a task or a tombstone and not both,
  -- each task's state fits where its goroutine stands, it has its time of finish once it is
  -- terminal, and its reader was closed at most once.
  pub Reach-IsValid :
      (exec : Bool) (ttl : ℤ) (s : System R) → Reach (initial {R = R} exec ttl) s → IsValid s
  Reach-IsValid exec ttl s here = initial-IsValid exec ttl
  Reach-IsValid exec ttl s (next {t = u} r st) = Step-IsValid u s st (Reach-IsValid exec ttl u r)
