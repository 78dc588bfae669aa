-- ===== src/Transfer/Tasks/Once.antt =====
-- A handle is fulfilled at most once.
use mcpplane.Common.{
  ℕ, ◌≡◌, ◌≢◌, inl, inr, String, Bool, none, Dict, lookup, insert, lookup-insert, arith,
  str_eq_self, Option-cases, Bool-cases, ℤ,
}
use mcpplane.Transfer.Tasks.Types.{UploadError}
use mcpplane.Transfer.Tasks.Methods.{start, fulfill, Reply, refused}
use mcpplane.Transfer.Tasks.System.{
  Phase, after_begin, waiting, finished, System, starts, fulfills, Step, Reach, here, next, initial,
  start_step, prepare_step, fulfill_step, get_step, cancel_step, list_step, run_step, expire_step,
  complete_step,
}
use mcpplane.Transfer.Tasks.Evicted.{}
use mcpplane.Transfer.Tasks.Lifecycle.{IsValid}
use mcpplane.Transfer.Tasks.Steps.{}
use mcpplane.Transfer.Tasks.Safety.{id-Entry, Reach-IsValid}
use mcpplane.Transfer.Tasks.Methods.{accepted, Job}
use mcpplane.Transfer.Tasks.Types.{not_configured, handle_expired, unknown_handle}
use mcpplane.Transfer.Tasks.System.{launch}
use mcpplane.Transfer.Tasks.Steps.{fulfill_task-cases}

launch-kept :
    {A : Type 0} (id j : String) (r : Reply A) (ps : Dict Phase)
    → lookup j ps ≢ none
    → lookup j (launch id r ps) ≢ none
launch-kept id j (accepted a) ps h = ground (arith, lookup-insert id j waiting ps)
launch-kept id j (refused e) ps h = h

insert-kept :
    (id j : String) (p : Phase) (ps : Dict Phase)
    → lookup j ps ≢ none
    → lookup j (insert id p ps) ≢ none
insert-kept id j p ps h = ground (arith, lookup-insert id j p ps)

module _ {R : Type 0} where
  -- A goroutine that was launched stays on record.
  Step-kept :
      (s s' : System R) (j : String)
      → Step s s'
      → lookup j s.phases ≢ none
      → lookup j s'.phases ≢ none
  Step-kept s s' j (start_step now id name f) h =
      unfold starts in (launch-kept id j (start now id name s.manager).0 s.phases h)
  Step-kept s s' j (prepare_step now id name ttl opts f) h = h
  Step-kept s s' j (fulfill_step now id name) h =
      unfold fulfills in (launch-kept id j (fulfill now id name s.manager).0 s.phases h)
  Step-kept s s' j (get_step now id) h = h
  Step-kept s s' j (cancel_step now id) h = h
  Step-kept s s' j (list_step now) h = h
  Step-kept s s' j (run_step now id w) h =
      insert-kept id j (after_begin (lookup id s.manager.tasks)) s.phases h
  Step-kept s s' j (expire_step now id w) h = h
  Step-kept s s' j (complete_step now id r w) h = insert-kept id j finished s.phases h

  Reach-kept :
      (s s' : System R) (j : String)
      → Reach s s'
      → lookup j s.phases ≢ none
      → lookup j s'.phases ≢ none
  Reach-kept s s' j here h = h
  Reach-kept s s' j (next {t = u} r st) h = Step-kept u s' j st (Reach-kept s u j r h)

  Reach-append : (s t u : System R) → Reach s t → Reach t u → Reach s u
  Reach-append s t u r here = r
  Reach-append s t u r (next {t = v} q st) = next (Reach-append s t v r q) st

  -- A handle with a goroutine is not prepared, so Fulfill refuses it.
  fulfill-refused :
      (now : ℕ) (id name : String) (s : System R)
      → IsValid s
      → lookup id s.phases ≢ none
      → (e : UploadError) × ((fulfill now id name s.manager).0 ≡ refused e)
  unfolding fulfill
  fulfill-refused now id name s v h = elim (Bool-cases s.manager.has_exec) [
    | inr off ↦ (not_configured, ground arith)
    | inl on ↦ elim (Option-cases (lookup id s.manager.tombstones)) [
      | inr (tomb, q) ↦ (handle_expired id, ground arith)
      | inl q ↦ elim (Option-cases (lookup id s.manager.tasks)) [
        | inl e ↦ (unknown_handle id, ground arith)
        | inr (t, e) ↦ elim (fulfill_task-cases t.task.state now id name t s.manager) [
          | inl (x, r) ↦ (x, ground arith)
          | inr p ↦ absurd (h (rw p at (id-Entry s id t v e).1).0)
        ]
      ]
    ]
  ]

  fulfills-launched :
      (now : ℕ) (id name : String) (job : Job) (s : System R)
      → (fulfill now id name s.manager).0 ≡ accepted job
      → lookup id (fulfills now id name s).phases ≢ none
  unfolding fulfills
  fulfills-launched now id name job s h =
      rw h (ground (arith, lookup-insert id id waiting s.phases, str_eq_self id))

  -- Once a Fulfill of a handle has been accepted, every later Fulfill of it is refused, whatever
  -- calls, goroutine sections and watchdog firings come between.
  pub fulfill-once :
      (exec : Bool) (ttl : ℤ) (s s' : System R) (now later : ℕ) (id name name' : String) (job : Job)
      → Reach (initial {R = R} exec ttl) s
      → (fulfill now id name s.manager).0 ≡ accepted job
      → Reach (fulfills now id name s) s'
      → (e : UploadError) × ((fulfill later id name' s'.manager).0 ≡ refused e)
  fulfill-once exec ttl s s' now later id name name' job r h q =
      fulfill-refused later id name' s'
        (Reach-IsValid exec ttl s' (
          Reach-append (initial {R = R} exec ttl) (fulfills now id name s) s'
            (next r (fulfill_step now id name)) q))
        (Reach-kept (fulfills now id name s) s' id q (fulfills-launched now id name job s h))
