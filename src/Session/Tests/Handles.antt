-- ===== src/Session/Tests/Handles.antt =====
-- Concrete handles, on which the theorems on session/async.go are applied.
use mcpplane.Common.{ℕ, ◌≡◌, none, some, List, [], ◌∷◌, pos, arith, String-discrete}
use mcpplane.Session.Async.{AsyncHandleStore, new_async_handle_store}
use mcpplane.Session.Async.View.{visible, shown}
use mcpplane.Session.Async.History.{
  Call, creates, sets, renews, run, spec_step, spec_run, run-visible,
}

abbrev empty_store : AsyncHandleStore ℕ
empty_store = new_async_handle_store (pos 30) (pos 1)

abbrev history : List (ℕ × Call ℕ)
history =
    (100, creates "h" "pending" (some 1))
    ∷ (110, sets "h" "done" none)
    ∷ (115, renews "h" "kept")
    ∷ []

run-visible_example :
    visible 120 (run history (new_async_handle_store (pos 30) (pos 1))) "h"
    ≡ shown 120 (spec_run 30 history (λ k. none) "h")
unfolding spec_step String-discrete
run-visible_example =
    run-visible (pos 30) (pos 1) 100 120 "h" history (omega arith, (omega arith, (omega arith, tt)))
      (tt, (tt, (tt, tt))) (omega arith)
