-- ===== src/Transfer/Tasks/Lifecycle.antt =====
-- The invariant of the upload system, kept by every step.
use mcpplane.Common.{
  ℕ, ◌≤◌, ◌≡◌, ◌≢◌, ◌⊎◌, inl, inr, sym, String, true, false, Option, none, some, if◌then◌else◌,
  Dict, lookup, str_eq, Distinct, insert-Distinct, lookup-insert, arith, str_eq_self,
  String-discrete, Option-cases, Bool-cases, ◌==◌,
}
use mathlib.Core.Path.{subst, subst₂}
use mcpplane.Transfer.Tasks.Types.{
  UploadTaskState, prepared, queued, running, completed, failed, cancelled, expired, TrackedTask,
  UploadTaskManager, close_reader,
}
use mcpplane.Transfer.Tasks.Prune.{prune, evict}
use mcpplane.Transfer.Tasks.Methods.{cancel_task}
use mcpplane.Transfer.Tasks.Worker.{ExecResult, on_task, begin_run, expire_run, complete, outcome}
use mcpplane.Transfer.Tasks.System.{
  Phase, after_begin, waiting, executing, finished, System, with_manager,
}
use mcpplane.Transfer.Tasks.Evicted.{kept, lookup-prune, prune-Distinct, Disjoint, prune-Disjoint}

module _ {R : Type 0} where
  -- How a task's state goes with its goroutine: a task that has finished has its time of finish, and
  -- a goroutine that is still to report on it finds it cancelled or timed out.
  abbrev pub Fits : UploadTaskState → Option Phase → TrackedTask R → Type 0
  Fits prepared p t = (p ≡ none) × (t.task.finished_at ≡ none) × (t.has_reader ≡ false)
  Fits queued p t = (p ≡ some waiting) × (t.timed_out ≡ false)
  Fits running p t = (p ≡ some executing) × (t.timed_out ≡ false)
  Fits completed p t = (p ≡ some finished) × (t.task.finished_at ≢ none)
  Fits failed p t = ((p ≡ some finished) ⊎ (t.timed_out ≡ true)) × (t.task.finished_at ≢ none)
  Fits cancelled p t = t.task.finished_at ≢ none
  Fits expired p t = ⊥

  -- The owned reader is closed at most once, and by its sync.Once.
  abbrev pub ReaderOk : TrackedTask R → Type 0
  ReaderOk t = t.closes ≤ (if t.close_once then 1 else 0)

  abbrev pub Entry : String → Option Phase → Option (TrackedTask R) → Type 0
  Entry j p none = Unit
  Entry j p (some t) = (t.task.id ≡ j) × Fits t.task.state p t × ReaderOk t

  pub record IsValid (s : System R) : Type 0 where
    pub entries : (j : String) → Entry j (lookup j s.phases) (lookup j s.manager.tasks)
    pub distinct : Distinct s.manager.tasks
    pub disjoint : Disjoint s.manager

  pub Entry-kept :
      (now : ℕ) (j : String) (p : Option Phase) (m : UploadTaskManager R)
      (o : Option (TrackedTask R))
      → Entry j p o
      → Entry j p (kept now m o)
  Entry-kept now j p m none e = tt
  Entry-kept now j p m (some t) e =
      elim (evict now m t) as (λ x. Entry j p (elim x [ none ↦ some t | some tomb ↦ none ])) [
        | none ↦ e
        | some tomb ↦ tt
      ]

  -- A prune keeps the entries as they are, or drops them.
  prune-Entry :
      (now : ℕ) (j : String) (p : Option Phase) (m : UploadTaskManager R)
      → Distinct m.tasks
      → Entry j p (lookup j m.tasks)
      → Entry j p (lookup j (prune now m).tasks)
  prune-Entry now j p m d e = rw (lookup-prune now j m d) (elim (Bool-cases (m.ttl == 0)) [
    | inl off ↦ rw off e
    | inr on ↦ rw on (Entry-kept now j p m (lookup j m.tasks) e)
  ])

  pub prune-IsValid :
      (now : ℕ) (s : System R) → IsValid s → IsValid (with_manager (prune now s.manager) s)
  prune-IsValid now s v = record {
    entries = λ j. prune-Entry now j (lookup j s.phases) s.manager v.distinct (v.entries j);
    distinct = prune-Distinct now s.manager v.distinct;
    disjoint = prune-Disjoint now s.manager v.disjoint;
  }

  -- A change at one handle keeps the rest.
  pub update-IsValid :
      (id : String) (s s' : System R)
      → IsValid s
      → Distinct s'.manager.tasks
      → Disjoint s'.manager
      → ((j : String)
          → id ≢ j
          → (lookup j s'.manager.tasks ≡ lookup j s.manager.tasks)
            × (lookup j s'.phases ≡ lookup j s.phases))
      → Entry id (lookup id s'.phases) (lookup id s'.manager.tasks)
      → IsValid s'
  update-IsValid id s s' v u d same e = record {
    entries = λ j. elim (String-discrete id j) [
      | yes q ↦ subst (λ k. Entry k (lookup k s'.phases) (lookup k s'.manager.tasks)) q e
      | no n ↦ subst₂ (λ p o. Entry j p o) (sym (same j n).1) (sym (same j n).0) (v.entries j)
    ];
    distinct = u;
    disjoint = d;
  }

  abbrev pub map_task :
      (TrackedTask R → TrackedTask R) → Option (TrackedTask R) → Option (TrackedTask R)
  map_task f none = none
  map_task f (some t) = some (f t)

  pub lookup-on_task :
      (f : TrackedTask R → TrackedTask R) (id j : String) (m : UploadTaskManager R)
      → lookup j (on_task f id m).tasks
        ≡ (if str_eq id j then map_task f (lookup id m.tasks) else lookup j m.tasks)
  unfolding on_task
  lookup-on_task f id j m = elim (Option-cases (lookup id m.tasks)) [
    | inl e ↦ ground arith
    | inr (t, e) ↦ ground (arith, lookup-insert id j (f t) m.tasks)
  ]

  on_task-Distinct :
      (f : TrackedTask R → TrackedTask R) (id : String) (m : UploadTaskManager R)
      → Distinct m.tasks
      → Distinct (on_task f id m).tasks
  unfolding on_task
  on_task-Distinct f id m d = elim (Option-cases (lookup id m.tasks)) [
    | inl e ↦ rw (e, Distinct) d
    | inr (t, e) ↦ rw (e, Distinct) (insert-Distinct id (f t) m.tasks d)
  ]

  on_task-Disjoint :
      (f : TrackedTask R → TrackedTask R) (id : String) (m : UploadTaskManager R)
      → Disjoint m
      → Disjoint (on_task f id m)
  unfolding on_task
  on_task-Disjoint f id m d j = elim (Option-cases (lookup id m.tasks)) [
    | inl e ↦ ground (arith, d j)
    | inr (t, e) ↦ ground (arith, d j, lookup-insert id j (f t) m.tasks)
  ]

  -- A section of the goroutine or the watchdog on one task.
  pub on_task-IsValid :
      (f : TrackedTask R → TrackedTask R) (id : String) (ps : Dict Phase) (s : System R)
      → IsValid s
      → ((j : String) → id ≢ j → lookup j ps ≡ lookup j s.phases)
      → ((t : TrackedTask R)
          → lookup id s.manager.tasks ≡ some t
          → Entry id (lookup id s.phases) (some t)
          → Entry id (lookup id ps) (some (f t)))
      → IsValid (record { manager = on_task f id s.manager; phases = ps })
  on_task-IsValid f id ps s v there keep =
      update-IsValid id s (record { manager = on_task f id s.manager; phases = ps }) v
        (on_task-Distinct f id s.manager v.distinct) (on_task-Disjoint f id s.manager v.disjoint)
        (λ j n. (ground (arith, lookup-on_task f id j s.manager), there j n))
        (rw (lookup-on_task f id id s.manager, str_eq_self id)
          (elim (Option-cases (lookup id s.manager.tasks)) [
            | inl e ↦ rw e tt
            | inr (t, e) ↦ rw e (keep t e (rw e at (v.entries id)))
          ]))

  pub begin_run-Entry :
      (now : ℕ) (id : String) (t : TrackedTask R)
      → Entry id (some waiting) (some t)
      → Entry id (some (after_begin (some t))) (some (begin_run now t))
  unfolding begin_run
  begin_run-Entry now id t e = ground arith

  pub expire_run-Entry :
      (now : ℕ) (id : String) (p : Option Phase) (t : TrackedTask R)
      → (p ≡ some executing) ⊎ (p ≡ some finished)
      → Entry id p (some t)
      → Entry id p (some (expire_run now t))
  unfolding expire_run close_reader
  expire_run-Entry now id p t h e = ground arith

  pub complete-Entry :
      (now : ℕ) (id : String) (r : ExecResult R) (t : TrackedTask R)
      → Entry id (some executing) (some t)
      → Entry id (some finished) (some (complete now r t))
  unfolding complete close_reader outcome
  complete-Entry now id r t e = ground arith

  pub cancel_task-Entry :
      (now : ℕ) (id : String) (p : Option Phase) (t : TrackedTask R)
      → Entry id p (some t)
      → Entry id p (some (cancel_task now id t).1)
  unfolding cancel_task close_reader
  cancel_task-Entry now id p t e = ground arith
