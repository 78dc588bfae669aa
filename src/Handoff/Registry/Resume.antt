-- ===== src/Handoff/Registry/Resume.antt =====
-- handoff/handoff_registry.go: the handler of a resume tool. A continuation is run by `invoke`, which
-- may change the registry and the handle store, and returns a result or an error. `DecodeToolArgs`
-- is json.Unmarshal into the one field: its text or an error is given.
use mcpplane.Common.{ℕ, String, true, false, Option, none, some, if◌then◌else◌, str_eq}
use mcpplane.Session.Async.{
  AsyncHandleStore, HandleError, handle_not_found, handle_expired, HandleResult, ok, err,
}
use mcpplane.Session.Async
use mcpplane.Handoff.Registry.{get, finish, Flows}
use mcpplane.Model.Results.{
  ToolResult, needs_human_result, is_terminal_content, reason_credential_entry,
  reason_interactive_only, not_a_map,
}

pub record ResumeToolSpec : Type 0 where
  pub restart_tool : String
  pub unknown_handle_detail : String
  pub expired_handle_detail : String
  pub dead_handle_reason : String

-- What the handler decodes from the request.
pub data Decoded : Type 0 where
  decoded : String → Decoded
  malformed : String → Decoded

abbrev pub dead_reason : ResumeToolSpec → String
dead_reason spec =
    if str_eq spec.dead_handle_reason "" then reason_credential_entry else spec.dead_handle_reason

abbrev pub dead_detail : ResumeToolSpec → HandleError → String
dead_detail spec handle_not_found = spec.unknown_handle_detail
dead_detail spec handle_expired = spec.expired_handle_detail

abbrev pub steer : String → String → String → ToolResult
steer reason resume_tool detail = needs_human_result (record {
  reason = reason;
  action_url = "";
  handle = "";
  resume_tool = resume_tool;
  detail = detail;
  in_use = false;
  revoke_tool = "";
})

abbrev pub failure : String → ToolResult
failure message = record { is_error = true; message = message; structured_content = not_a_map }

module _ {D K : Type 0}
    (invoke : K → String → Option D → Flows D K → Option ToolResult × Flows D K) where
  -- What follows the continuation's return.
  unfoldable pub after_invoke :
      ResumeToolSpec → String → Option ToolResult × Flows D K → ToolResult × Flows D K
  after_invoke spec handle (none, s) = (
    steer reason_credential_entry spec.restart_tool
        "The hand-off failed or expired; start a fresh flow.",
    s,
  )
  after_invoke spec handle (some result, s) = (
    result,
    (if is_terminal_content result.structured_content
        then record s { registry = finish handle s.registry }
        else s),
  )

  -- The handler past its lookup in the handle store.
  unfoldable pub dispatch :
      ℕ
      → ResumeToolSpec
      → String
      → HandleResult (String × Option D)
      → Flows D K
      → ToolResult × Flows D K
  unfolding after_invoke
  dispatch now spec handle (err e) s = (
    steer (dead_reason spec) spec.restart_tool (dead_detail spec e),
    record s { registry = finish handle s.registry },
  )
  dispatch now spec handle (ok (status, data_of)) s = elim (get now handle s.registry) [
    | none ↦ (
      steer (dead_reason spec) spec.restart_tool
          "This handle has no pending continuation; start a fresh flow.",
      s,
    )
    | some k ↦ after_invoke spec handle (invoke k handle data_of s)
  ]

  -- The handler of a tool with a registry and a store. The store's clock shows `now` and the
  -- registry's `later`.
  unfoldable pub resume : ℕ → ℕ → ResumeToolSpec → Decoded → Flows D K → ToolResult × Flows D K
  unfolding dispatch
  resume now later spec (malformed message) s = (failure message, s)
  resume now later spec (decoded handle) s =
      if str_eq handle ""
      then (failure "handle is required", s)
      else (let (found, handles) = Async.get now handle s.handles in
          dispatch later spec handle found (record s { handles = handles }))

  -- The handler as a whole, for a tool that may lack its registry or its store.
  unfoldable pub resume_tool :
      ℕ → ℕ → ResumeToolSpec → Decoded → Option (Flows D K) → ToolResult × Option (Flows D K)
  unfolding resume
  resume_tool now later spec d none =
      (steer reason_interactive_only "" "Resume is not configured for this server.", none)
  resume_tool now later spec d (some s) = let (r, s') = resume now later spec d s in (r, some s')
