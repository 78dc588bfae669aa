-- ===== src/Session/Tests/Wizards.antt =====
-- Concrete sessions and wizards, on which the theorems on session/session.go are applied.
use mcpplane.Common.{
  ℕ, ◌+◌, ◌≤◌, ◌≡◌, ◌≢◌, refl, ap, String, true, false, none, some, List, [], ◌∷◌, ◌==◌, pos,
  if◌then◌else◌, lookup, insert, String-discrete, str_eq, arith,
}
use mcpplane.Session.Store.{
  StepDef, Session, SessionStore, create, evict, count, new_session_store_with_limits,
}
use mcpplane.Session.Store.Capacity.{Call, creates, gets, run-bounded, create-full_iff, live_count}
use mcpplane.Session.Store.Capacity
use mcpplane.Session.Store.Expiry.{create-keeps}
use mcpplane.Session.Advance.{Machine, Handlers}
use mcpplane.Session.Advance.Progress.{fire_all, run, trace, run-trace}

-- A machine that counts its events, from the state "name" to the state "done".
abbrev counter : Machine
counter = record {
  Fsm = ℕ;
  FsmError = String;
  current = λ n. if n == 0 then "name" else "done";
  fire = λ e n. if str_eq e "next" then (n + 1, none) else (n, some "inappropriate event");
}

-- A handler that takes every name but the empty one.
abbrev form : Handlers String ℕ (Unit {0}) (Unit {0})
form = record {
  Input = String;
  Failure = String;
  Schema = Unit;
  handle = λ h s i.
      if str_eq i "" then (s, ("", some "name required")) else (record s { state = i }, ("", none));
  schema_of = λ c s. tt;
}

abbrev name_step : StepDef (Unit {0}) (Unit {0})
name_step = record { name = "name"; event = "next"; handler = some tt; schema = none }

abbrev Store : Type 0
Store = SessionStore String ℕ (Unit {0}) (Unit {0})

abbrev store : Store
store = new_session_store_with_limits (pos 30) (pos 1)

abbrev one_session : Store
one_session = (create 100 100 "s" "" 0 (name_step ∷ []) store).2

abbrev wizard : Session String ℕ (Unit {0}) (Unit {0})
wizard = (create 100 100 "s" "" 0 (name_step ∷ []) store).0

run-bounded_example :
    count (
      Capacity.run
        (creates 100 100 "s" "" 0 (name_step ∷ []) ∷ creates 101 101 "t" "" 0 [] ∷ [])
        store)
    ≤ 1
run-bounded_example =
    run-bounded (pos 30) (pos 1)
      (creates 100 100 "s" "" 0 (name_step ∷ []) ∷ creates 101 101 "t" "" 0 [] ∷ [])

t_ne_s : ◌≢◌ {A = String} "t" "s"
unfolding String-discrete
t_ne_s q = let clash : true ≡ false = ap (str_eq "t") q in ground (arith, clash)

create-keeps_example : lookup "s" (create 101 101 "t" "" 0 [] one_session).2.sessions ≡ some wizard
unfolding create evict new_session_store_with_limits insert lookup String-discrete
create-keeps_example =
    create-keeps 101 101 "t" "s" "" 0 [] one_session wizard (refl, tt) t_ne_s (omega arith) refl

abbrev inputs : List String
inputs = "" ∷ "cat" ∷ []

run-trace_example :
    (run counter form inputs wizard).fsm
    ≡ fire_all counter form (trace counter form inputs wizard) wizard.fsm
run-trace_example = run-trace counter form inputs wizard (λ h s i. ground arith)
