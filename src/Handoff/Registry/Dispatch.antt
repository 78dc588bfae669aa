-- ===== src/Handoff/Registry/Dispatch.antt =====
-- What the resume tool does with a flow.
use mcpplane.Common.{
  ℕ, ◌+◌, ◌≤◌, ◌≡◌, ◌≢◌, refl, String, Bool, true, false, Option, none, some, lookup, arith,
  Option-cases, inl, inr, lookup-delete, str_eq_iff, str_eq_self, Distinct,
}
use mcpplane.Session.Async.{
  AsyncItem, AsyncHandleStore, HandleError, handle_not_found, handle_expired, HandleResult, ok, err,
  is_stale,
}
use mcpplane.Session.Async
use mcpplane.Session.Async.View.{visible}
use mcpplane.Handoff.Registry.{HandoffRegistry, get, finish, Flows, begin_flow, prune_entries}
use mcpplane.Handoff.Registry.Eviction.{
  get-begin, handles-begin_flow, listed-begin, evict_oldest-listed,
}
use mcpplane.Handoff.Registry.Resume.{
  ResumeToolSpec, decoded, after_invoke, dispatch, resume, steer, failure, dead_reason,
}
use mcpplane.Model.Results.{
  ToolResult, is_terminal_content, needs_human_pending, reason_credential_entry,
}

abbrev pub terminal : ToolResult → Bool
terminal r = is_terminal_content r.structured_content

get-finish :
    {K : Type 0} (t : ℕ) (handle : String) (r : HandoffRegistry K)
    → get t handle (finish handle r) ≡ none
unfolding get finish
get-finish t handle r = ground (arith, lookup-delete handle handle r.cont, str_eq_self handle)

failure-pending : (message : String) → terminal (failure message) ≡ false
unfolding is_terminal_content
failure-pending message = refl

steer-pending : (reason tool detail : String) → terminal (steer reason tool detail) ≡ false
steer-pending reason tool detail = needs_human_pending (record {
  reason = reason;
  action_url = "";
  handle = "";
  resume_tool = tool;
  detail = detail;
  in_use = false;
  revoke_tool = "";
})

module _ {D K : Type 0}
    (invoke : K → String → Option D → Flows D K → Option ToolResult × Flows D K) where
  after_invoke-terminal :
      (t : ℕ) (spec : ResumeToolSpec) (handle : String) (p : Option ToolResult × Flows D K)
      → terminal (after_invoke invoke spec handle p).0 ≡ true
      → get t handle (after_invoke invoke spec handle p).1.registry ≡ none
  unfolding after_invoke
  after_invoke-terminal t spec handle (none, s) e = ground (
    arith,
    steer-pending reason_credential_entry spec.restart_tool
        "The hand-off failed or expired; start a fresh flow.",
  )
  after_invoke-terminal t spec handle (some r, s) e = ground (arith, get-finish t handle s.registry)

  dispatch-terminal :
      (now t : ℕ) (spec : ResumeToolSpec) (handle : String) (r : HandleResult (String × Option D))
      (s : Flows D K)
      → terminal (dispatch invoke now spec handle r s).0 ≡ true
      → get t handle (dispatch invoke now spec handle r s).1.registry ≡ none
  unfolding dispatch
  dispatch-terminal now t spec handle (err x) s e = get-finish t handle s.registry
  dispatch-terminal now t spec handle (ok (status, d)) s e =
      elim (Option-cases (get now handle s.registry)) [
        | inl q ↦ ground (
          arith,
          steer-pending (dead_reason spec) spec.restart_tool
              "This handle has no pending continuation; start a fresh flow.",
        )
        | inr (k, q) ↦ ground (arith, after_invoke-terminal t spec handle (invoke k handle d s))
      ]

  -- A resume call that answers with a terminal result leaves no continuation under its handle.
  pub resume-terminal :
      (now later t : ℕ) (spec : ResumeToolSpec) (handle : String) (s : Flows D K)
      → terminal (resume invoke now later spec (decoded handle) s).0 ≡ true
      → get t handle (resume invoke now later spec (decoded handle) s).1.registry ≡ none
  unfolding resume
  resume-terminal now later t spec handle s e = ground (
    arith,
    dispatch-terminal later t spec handle (Async.get now handle s.handles).0
        (record s { handles = (Async.get now handle s.handles).1 }),
    failure-pending "handle is required",
  )

  -- A resume call on a handle, not empty, that the store does not show is answered with a
  -- hand-off that is not terminal, and drops the continuation under the handle.
  pub resume-dead :
      (now later t : ℕ) (spec : ResumeToolSpec) (handle : String) (s : Flows D K)
      → handle ≢ ""
      → visible now s.handles handle ≡ none
      → (terminal (resume invoke now later spec (decoded handle) s).0 ≡ false)
        × (get t handle (resume invoke now later spec (decoded handle) s).1.registry ≡ none)
  unfolding resume dispatch Async.get
  resume-dead now later t spec handle s n h = ground (
    arith,
    str_eq_iff handle "",
    get-finish t handle s.registry,
    steer-pending (dead_reason spec) spec.restart_tool spec.unknown_handle_detail,
    steer-pending (dead_reason spec) spec.restart_tool spec.expired_handle_detail,
  )

  -- In a registry with distinct handles, a flow that begins under a handle, not empty, without an
  -- earlier continuation is resumed by its own continuation, with the handle's data, until the
  -- continuation lapses and while the handle was visible in the store.
  pub resume-begin :
      (now later t t' : ℕ) (spec : ResumeToolSpec) (handle status : String) (d : Option D) (k : K)
      (s : Flows D K)
      → Distinct s.registry.cont
      → handle ≢ ""
      → lookup handle s.registry.cont ≡ none
      → visible t s.handles handle ≡ some (status, d)
      → t' ≤ later + s.registry.ttp
      → resume invoke t t' spec (decoded handle) (begin_flow now later handle k s)
        ≡ after_invoke invoke spec handle (invoke k handle d (begin_flow now later handle k s))
  unfolding resume dispatch Async.get
  resume-begin now later t t' spec handle status d k s u n e h l =
      let s' : Flows D K = begin_flow now later handle k s in
      let there : lookup handle s'.handles.items ≡ lookup handle s.handles.items = ground (
        arith,
        handles-begin_flow now later handle handle k s n,
        listed-begin now later handle handle k s.registry u,
        evict_oldest-listed handle (prune_entries now s.registry).1,
      ) in
      let found : get t' handle s'.registry ≡ some k =
        unfold begin_flow in ground (arith, get-begin now later t' handle k s.registry) in
      ground (arith, there, found, str_eq_iff handle "")
