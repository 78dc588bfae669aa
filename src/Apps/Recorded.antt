-- ===== src/Apps/Recorded.antt =====
-- What a successful registration of a view records.
use mcpplane.Common.{
  ℕ, ◌≡◌, String, Bool, false, Option, none, some, if◌then◌else◌, str_eq, arith, Option-cases, inl,
  inr,
}
use mcpplane.Sdk.AppRegistry.{register_app_resource}
use mcpplane.Apps.{
  AppView, AppViewInfo, Host, missing, app_info_for_tool, info_of, wire_view, wire_helpers,
  register_helpers, register_app_view,
}
use mcpplane.Apps.Wiring.{mem, lookup-attach_all}

-- The association of a name after a registration.
unfoldable pub recorded : AppView → String → Host → Option AppViewInfo
recorded v j host = if mem j v.attach_to then some (info_of v) else app_info_for_tool j host.apps

wire_view-recorded :
    (srv : String) (v : AppView) (now : ℕ) (host : Host) (j : String)
    → str_eq v.uri "" ≡ false
    → missing v.attach_to host.catalog ≡ none
    → app_info_for_tool j (wire_view (some srv) v now host).1.apps ≡ recorded v j host
unfolding wire_view register_app_resource app_info_for_tool recorded
wire_view-recorded srv v now host j u h =
    rw (u, wire_view) (lookup-attach_all (info_of v) v.attach_to host.catalog host.apps j u h)

wire_helpers-recorded :
    (srv : String) (v : AppView) (now : ℕ) (host : Host) (j : String)
    → str_eq v.uri "" ≡ false
    → missing v.attach_to host.catalog ≡ none
    → (wire_helpers (some srv) v now host).0 ≡ none
    → app_info_for_tool j (wire_helpers (some srv) v now host).1.apps ≡ recorded v j host
unfolding wire_helpers
wire_helpers-recorded srv v now host j u h k =
    elim (Option-cases (register_helpers (some srv) v.uri v.helpers host.tools).0) [
      | inr (f, q) ↦ absurd (ground arith)
      | inl q ↦
          let t = (register_helpers (some srv) v.uri v.helpers host.tools).1 in
          rw (q, wire_helpers)
            (unfold recorded app_info_for_tool in
              wire_view-recorded srv v now (record host { tools = t }) j u h)
    ]

-- A registration of a view that succeeds gives each tool that it is attached to the view's URI, name and
-- title, and leaves the association of every other name as it was.
register_app_view-recorded :
    (srv : Option String) (has_catalog : Bool) (v : AppView) (now : ℕ) (host : Host) (j : String)
    → (register_app_view srv has_catalog v now host).0 ≡ none
    → app_info_for_tool j (register_app_view srv has_catalog v now host).1.apps ≡ recorded v j host
unfolding register_app_view
register_app_view-recorded none has_catalog v now host j h = absurd (ground arith)
register_app_view-recorded (some srv) has_catalog v now host j h =
    ground (arith, wire_helpers-recorded srv v now host j)
