-- ===== src/Apps.antt =====
-- apps/apps_lib.go: the registry of app views and the wiring of one view. The catalog is a map from the
-- names of tools to their `_meta` maps, which AttachAppMeta extends in place; the server's resources
-- and tools are those of Sdk.
pub mod Wiring
pub mod Recorded
mod Tests
use mcpplane.Common.{
  ℕ, String, Bool, true, false, Option, none, some, List, [], ◌∷◌, not, if◌then◌else◌, Dict, lookup,
  insert, delete, str_eq,
}
use mcpplane.Sdk.AppRegistry.{AppResource, Registry, register_app_resource}
use mcpplane.Sdk.AppTools.{
  MetaValue, ToolDescriptor, ToolError, Tools, marshal_tool_meta, extend, register_app_tool,
}

pub record AppView : Type 0 where
  pub uri : String
  pub name : String
  pub title : String
  pub description : String
  pub html : String
  pub domain : String
  pub prefers_border : Bool
  pub connect_domains_func : Option (ℕ → List String)
  pub attach_to : List String
  pub helpers : List ToolDescriptor

pub record AppViewInfo : Type 0 where
  pub uri : String
  pub name : String
  pub title : String

-- A resolver of the deployment's origin answers at the time of a call.
pub record AppRegistry : Type 0 where
  pub app_views_by_tool : Dict AppViewInfo
  pub view_domain_resolver : Option (ℕ → String)

abbrev pub Catalog : Type 0
Catalog = Dict (Dict MetaValue)

-- What a registration reads and changes.
pub record Host : Type 0 where
  pub apps : AppRegistry
  pub catalog : Catalog
  pub resources : Registry
  pub tools : Tools

pub data AppError : Type 0 where
  nil_server nil_catalog no_uri no_name no_html resource_failed no_resource_uri : AppError
  not_in_catalog : String → AppError
  helper_failed : ToolError → AppError

unfoldable pub new_app_registry : AppRegistry
new_app_registry = record { app_views_by_tool = []; view_domain_resolver = none }

unfoldable pub set_view_domain_resolver : Option (ℕ → String) → AppRegistry → AppRegistry
set_view_domain_resolver f r = record r { view_domain_resolver = f }

unfoldable pub view_domain : String → ℕ → AppRegistry → String
view_domain override now r =
    if str_eq override ""
    then (elim r.view_domain_resolver [ none ↦ "" | some f ↦ f now ])
    else override

unfoldable pub app_info_for_tool : String → AppRegistry → Option AppViewInfo
app_info_for_tool tool r = lookup tool r.app_views_by_tool

unfoldable pub set_app_view_info : String → AppViewInfo → AppRegistry → AppRegistry
set_app_view_info tool info r = record r {
  app_views_by_tool = insert tool info r.app_views_by_tool;
}

unfoldable pub delete_app_view_info : String → AppRegistry → AppRegistry
delete_app_view_info tool r = record r { app_views_by_tool = delete tool r.app_views_by_tool }

-- The first name that the catalog does not have.
unfoldable pub missing : List String → Catalog → Option String
missing [] catalog = none
missing (tool ∷ tools) catalog = elim (lookup tool catalog) [
  | none ↦ some tool
  | some meta ↦ missing tools catalog
]

-- The loop over the helpers, which stops at the first error.
unfoldable pub register_helpers :
    Option String → String → List ToolDescriptor → Tools → Option ToolError × Tools
unfolding register_app_tool
register_helpers srv uri [] tools = (none, tools)
register_helpers srv uri (h ∷ hs) tools =
    let r =
      register_app_tool srv h (record { resource_uri = uri; visibility = "app" ∷ [] }) tools in
    let rest = register_helpers srv uri hs r.1 in elim r.0 [ some e ↦ r | none ↦ rest ]

unfoldable pub attach_app_meta : String → String → Catalog → Option AppError × Catalog
unfolding marshal_tool_meta extend
attach_app_meta tool uri catalog = elim (lookup tool catalog) [
  | none ↦ (some (not_in_catalog tool), catalog)
  | some meta ↦ elim (marshal_tool_meta (record { resource_uri = uri; visibility = [] })) [
    | none ↦ (some no_resource_uri, catalog)
    | some attached ↦ (none, insert tool (extend attached meta) catalog)
  ]
]

-- The last loop of RegisterAppView.
unfoldable pub attach_all :
    AppViewInfo → List String → Catalog → AppRegistry → Option AppError × Catalog × AppRegistry
unfolding attach_app_meta set_app_view_info
attach_all info [] catalog apps = (none, catalog, apps)
attach_all info (tool ∷ tools) catalog apps =
    let r = attach_app_meta tool info.uri catalog in
    let rest = attach_all info tools r.1 (set_app_view_info tool info apps) in
    elim r.0 [ some e ↦ (some e, r.1, apps) | none ↦ rest ]

abbrev pub info_of : AppView → AppViewInfo
info_of v = record { uri = v.uri; name = v.name; title = v.title }

abbrev pub resource_of : AppView → String → AppResource
resource_of v domain = record {
  uri = v.uri;
  name = v.name;
  title = v.title;
  description = v.description;
  meta = record {
    csp = none;
    domain = domain;
    widget_description = v.description;
    prefers_border = some v.prefers_border;
  };
  connect_domains_func = v.connect_domains_func;
  html = v.html;
}

-- RegisterAppView past its checks and its helpers.
unfoldable pub wire_view : Option String → AppView → ℕ → Host → Option AppError × Host
unfolding register_app_resource view_domain attach_all
wire_view srv v now host =
    let r =
      register_app_resource srv (resource_of v (view_domain v.domain now host.apps))
        host.resources in
    let (e, catalog, apps) = attach_all (info_of v) v.attach_to host.catalog host.apps in
    if r.0
    then (e, record host { apps = apps; catalog = catalog; resources = r.1 })
    else (some resource_failed, record host { resources = r.1 })

-- The loop over the helpers and what follows it.
unfoldable pub wire_helpers : Option String → AppView → ℕ → Host → Option AppError × Host
unfolding register_helpers wire_view
wire_helpers srv v now host =
    let r = register_helpers srv v.uri v.helpers host.tools in
    elim r.0 [
      | some e ↦ (some (helper_failed e), record host { tools = r.1 })
      | none ↦ wire_view srv v now (record host { tools = r.1 })
    ]

-- Whether the server and the catalog are there is given.
unfoldable pub register_app_view :
    Option String → Bool → AppView → ℕ → Host → Option AppError × Host
unfolding missing wire_helpers
register_app_view none has_catalog v now host = (some nil_server, host)
register_app_view (some srv) has_catalog v now host =
    if not has_catalog
    then (some nil_catalog, host)
    else if str_eq v.uri ""
    then (some no_uri, host)
    else if str_eq v.name ""
    then (some no_name, host)
    else if str_eq v.html ""
    then (some no_html, host)
    else (elim (missing v.attach_to host.catalog) [
      | some tool ↦ (some (not_in_catalog tool), host)
      | none ↦ wire_helpers (some srv) v now host
    ])
