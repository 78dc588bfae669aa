-- ===== src/Apps/Wiring.antt =====
-- A failed registration wires no view, and a successful one every tool that it names.
use mcpplane.Common.{
  ℕ, ◌≡◌, refl, ap, ◌∙◌, String, Bool, true, false, Option, none, some, List, [], ◌∷◌,
  if◌then◌else◌, Dict, lookup, insert, lookup-insert, str_eq, arith, Option-cases, inl, inr,
}
use mcpplane.Sdk.AppRegistry.{Registry, register_app_resource}
use mcpplane.Sdk.AppTools.{MetaValue, text, ui_block, marshal_tool_meta, extend}
use mcpplane.Apps.{
  AppView, AppViewInfo, AppRegistry, Catalog, Host, AppError, missing, attach_app_meta, attach_all,
  set_app_view_info, info_of, wire_view, wire_helpers, register_helpers, register_app_view,
}

-- Whether a name is in a list.
unfoldable pub mem : String → List String → Bool
mem j [] = false
mem j (k ∷ ks) = if str_eq k j then true else mem j ks

missing-insert :
    (tools : List String) (k : String) (v : Dict MetaValue) (catalog : Catalog)
    → missing tools catalog ≡ none
    → missing tools (insert k v catalog) ≡ none
unfolding missing
missing-insert [] k v catalog h = refl
missing-insert (tool ∷ tools) k v catalog h =
    ground (arith, lookup-insert k tool v catalog, missing-insert tools k v catalog)

abbrev attached : String → Dict MetaValue
attached uri =
    ("ui", ui_block (record { resource_uri = uri; visibility = [] }))
    ∷ ("ui/resourceUri", text uri)
    ∷ ("openai.outputTemplate", text uri)
    ∷ []

attach_app_meta-found :
    (tool uri : String) (meta : Dict MetaValue) (catalog : Catalog)
    → str_eq uri "" ≡ false
    → lookup tool catalog ≡ some meta
    → attach_app_meta tool uri catalog ≡ (none, insert tool (extend (attached uri) meta) catalog)
unfolding attach_app_meta marshal_tool_meta
attach_app_meta-found tool uri meta catalog u h = ground arith

-- After one step the next name is attached.
attach_all-step :
    (info : AppViewInfo) (tool : String) (tools : List String) (meta : Dict MetaValue)
    (catalog : Catalog) (apps : AppRegistry)
    → str_eq info.uri "" ≡ false
    → lookup tool catalog ≡ some meta
    → attach_all info (tool ∷ tools) catalog apps
      ≡ attach_all info tools
          (insert tool (extend (attached info.uri) meta) catalog)
          (set_app_view_info tool info apps)
unfolding attach_all
attach_all-step info tool tools meta catalog apps u h =
    let q = attach_app_meta-found tool info.uri meta catalog u h in
    rw (q, attach_all)
      (ap
        (λ (x : Option AppError × Catalog).
          attach_all info tools x.1 (set_app_view_info tool info apps))
        q)

first_there :
    (tool : String) (tools : List String) (catalog : Catalog)
    → missing (tool ∷ tools) catalog ≡ none
    → (meta : Dict MetaValue) × (lookup tool catalog ≡ some meta) × (missing tools catalog ≡ none)
unfolding missing
first_there tool tools catalog h = elim (Option-cases (lookup tool catalog)) [
  | inl e ↦ absurd (ground arith)
  | inr (meta, e) ↦ (meta, e, ground arith)
]

-- Names that are in the catalog are all attached.
attach_all-none :
    (info : AppViewInfo) (tools : List String) (catalog : Catalog) (apps : AppRegistry)
    → str_eq info.uri "" ≡ false
    → missing tools catalog ≡ none
    → (attach_all info tools catalog apps).0 ≡ none
unfolding attach_all
attach_all-none info [] catalog apps u h = refl
attach_all-none info (tool ∷ tools) catalog apps u h =
    let (meta, e, rest) = first_there tool tools catalog h in
    let v : Dict MetaValue = extend (attached info.uri) meta in
    ap (λ x. x.0) (attach_all-step info tool tools meta catalog apps u e)
    ∙ attach_all-none info tools (insert tool v catalog) (set_app_view_info tool info apps) u
        (missing-insert tools tool v catalog rest)

-- The views that are recorded for the names, and no others.
pub lookup-attach_all :
    (info : AppViewInfo) (tools : List String) (catalog : Catalog) (apps : AppRegistry) (j : String)
    → str_eq info.uri "" ≡ false
    → missing tools catalog ≡ none
    → lookup j (attach_all info tools catalog apps).2.app_views_by_tool
      ≡ (if mem j tools then some info else lookup j apps.app_views_by_tool)
unfolding attach_all mem set_app_view_info
lookup-attach_all info [] catalog apps j u h = refl
lookup-attach_all info (tool ∷ tools) catalog apps j u h =
    let (meta, e, rest) = first_there tool tools catalog h in
    let v : Dict MetaValue = extend (attached info.uri) meta in
    ap (λ x. lookup j x.2.app_views_by_tool) (attach_all-step info tool tools meta catalog apps u e)
    ∙ lookup-attach_all info tools (insert tool v catalog) (set_app_view_info tool info apps) j u
        (missing-insert tools tool v catalog rest)
    ∙ ground (arith, lookup-insert tool j info apps.app_views_by_tool)

-- A failure after the helpers leaves none: the resource and every name are registered.
wire_view-none :
    (srv : String) (v : AppView) (now : ℕ) (host : Host)
    → str_eq v.uri "" ≡ false
    → missing v.attach_to host.catalog ≡ none
    → (wire_view (some srv) v now host).0 ≡ none
unfolding wire_view register_app_resource
wire_view-none srv v now host u h =
    rw (u, wire_view) (attach_all-none (info_of v) v.attach_to host.catalog host.apps u h)

-- The parts of a host other than its tools.
abbrev pub rest_of : Host → AppRegistry × Catalog × Registry
rest_of host = (host.apps, host.catalog, host.resources)

wire_helpers-refused :
    (srv : String) (v : AppView) (now : ℕ) (host : Host) (e : AppError)
    → str_eq v.uri "" ≡ false
    → missing v.attach_to host.catalog ≡ none
    → (wire_helpers (some srv) v now host).0 ≡ some e
    → rest_of (wire_helpers (some srv) v now host).1 ≡ rest_of host
unfolding wire_helpers
wire_helpers-refused srv v now host e u h k =
    elim (Option-cases (register_helpers (some srv) v.uri v.helpers host.tools).0) [
      | inr (f, q) ↦ rw (q, wire_helpers)
      | inl q ↦
          let t = (register_helpers (some srv) v.uri v.helpers host.tools).1 in
          let w = wire_view-none srv v now (record host { tools = t }) u h in absurd (ground arith)
    ]

-- A call of RegisterAppView that returns an error leaves the associations of tools with views,
-- the metadata in the catalog and the registered resources as they were, whichever step fails.
pub register_app_view-refused :
    (srv : Option String) (has_catalog : Bool) (v : AppView) (now : ℕ) (host : Host) (e : AppError)
    → (register_app_view srv has_catalog v now host).0 ≡ some e
    → rest_of (register_app_view srv has_catalog v now host).1 ≡ rest_of host
unfolding register_app_view
register_app_view-refused none has_catalog v now host e h = refl
register_app_view-refused (some srv) has_catalog v now host e h =
    ground (arith, wire_helpers-refused srv v now host e)
