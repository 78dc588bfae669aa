-- ===== src/Handoff/Tests/Resumes.antt =====
-- Concrete flows, on which the theorems on handoff/handoff_registry.go are applied.
use mcpplane.Common.{
  ℕ, ◌≤◌, ◌≡◌, ◌≢◌, refl, ap, String, true, false, Option, none, some, [], ◌∷◌, length, lookup,
  String-discrete, str_eq, arith,
}
use mcpplane.Session.Async.{AsyncItem, AsyncHandleStore, default_max_sessions}
use mcpplane.Session.Async
use mcpplane.Handoff.Registry.{new_handoff_registry, get, Flows, begin_flow}
use mcpplane.Handoff.Registry.Bounds.{begins, finishes, run, run-length}
use mcpplane.Handoff.Registry.Eviction.{begin_flow-retires, begin_flow-lapsed}
use mcpplane.Handoff.Registry.Resume.{ResumeToolSpec, decoded, after_invoke, dispatch, resume}
use mcpplane.Handoff.Registry.Dispatch.{resume-terminal, resume-begin}
use mcpplane.Model.Results.{ToolResult, fields, text, is_terminal_content}

-- A registry for one flow, with the flow of "a" begun at 10, and the store that backs it.
abbrev one_flow : Flows ℕ ℕ
one_flow = record {
  registry = record {
    cont = ("a", record { created_at = 10; cont = 1 }) ∷ [];
    ttp = 30;
    max_entries = 1;
  };
  handles = record {
    items =
        ("a", record { status = "pending"; payload = some 5; created_at = 10; expires_at = 60 })
        ∷ [];
    ttl = 50;
    max_len = 1;
  };
}

-- The flow's handle before the flow begins.
abbrev no_flow : Flows ℕ ℕ
no_flow = record {
  registry = record { cont = []; ttp = 30; max_entries = 1 };
  handles = one_flow.handles;
}

-- Every continuation is done at once.
abbrev done : ToolResult
done = record {
  is_error = false;
  message = "done";
  structured_content = fields (("status", text "done") ∷ []);
}

abbrev finish_at_once : ℕ → String → Option ℕ → Flows ℕ ℕ → Option ToolResult × Flows ℕ ℕ
finish_at_once k handle d s = (some done, s)

abbrev login : ResumeToolSpec
login = record {
  restart_tool = "auth_sso";
  unknown_handle_detail = "unknown";
  expired_handle_detail = "expired";
  dead_handle_reason = "sso_approval";
}

a_ne_empty : ◌≢◌ {A = String} "a" ""
unfolding String-discrete
a_ne_empty q = let clash : true ≡ false = ap (str_eq "a") q in ground (arith, clash)

a_ne_b : ◌≢◌ {A = String} "a" "b"
unfolding String-discrete
a_ne_b q = let clash : true ≡ false = ap (str_eq "a") q in ground (arith, clash)

run-length_example :
    length (run {K = ℕ} (begins 5 5 "a" 1 ∷ finishes "a" ∷ []) new_handoff_registry).cont
    ≤ default_max_sessions
run-length_example = run-length (begins 5 5 "a" 1 ∷ finishes "a" ∷ []) (a_ne_empty, tt)

-- The flow of "a" makes room for the flow of "b".
begin_flow-retires_example :
    lookup "a" (begin_flow 20 20 "b" 2 one_flow).handles.items
    ≡ elim (lookup "a" (begin_flow 20 20 "b" 2 one_flow).registry.cont) [
      | none ↦ none
      | some _ ↦ lookup "a" one_flow.handles.items
    ]
unfolding lookup String-discrete
begin_flow-retires_example =
    begin_flow-retires 20 20 "b" "a" 2 (record { created_at = 10; cont = 1 }) one_flow (refl, tt)
      a_ne_empty a_ne_b refl

begin_flow-lapsed_example :
    (get 50 "a" (begin_flow 45 45 "a" 2 one_flow).registry ≡ some 2)
    × (lookup "a" (begin_flow 45 45 "a" 2 one_flow).handles.items ≡ none)
unfolding lookup String-discrete
begin_flow-lapsed_example =
    begin_flow-lapsed 45 45 50 "a" 2 (record { created_at = 10; cont = 1 }) one_flow (refl, tt)
      a_ne_empty refl (omega arith) (omega arith)

resume-terminal_example :
    get 25 "a" (resume finish_at_once 20 20 login (decoded "a") one_flow).1.registry ≡ none
unfolding resume dispatch after_invoke Async.get get lookup String-discrete is_terminal_content
resume-terminal_example = resume-terminal finish_at_once 20 20 25 login "a" one_flow refl

resume-begin_example :
    resume finish_at_once 20 20 login (decoded "a") (begin_flow 12 12 "a" 3 no_flow)
    ≡ after_invoke finish_at_once login "a"
        (finish_at_once 3 "a" (some 5) (begin_flow 12 12 "a" 3 no_flow))
unfolding lookup String-discrete
resume-begin_example =
    resume-begin finish_at_once 12 12 20 20 login "a" "pending" (some 5) 3 no_flow tt a_ne_empty
      refl refl (omega arith)
