-- ===== src/Sdk/AppRegistry.antt =====
-- sdk/apps_registry.go: the registry of app resources, by server and URI, and the tool registrar. A
-- server is its name, and `none` a nil pointer; what the code calls on the server (go-sdk's
-- AddResource and RemoveResources) is a list of calls, the last one first. A handler is what its
-- closure holds. Marshalling a meta value to JSON and back keeps it.
pub mod Listing
pub mod Releasing
use mcpplane.Common.{
  ℕ, ◌≡◌, refl, String, Bool, true, false, ◌&&◌, List, [], ◌∷◌, map, Option, none, some,
  if◌then◌else◌, Dict, lookup, insert, delete, str_eq,
}

pub record AppResourceCsp : Type 0 where
  pub connect_domains : List String
  pub resource_domains : List String
  pub frame_domains : List String

pub record AppResourceMeta : Type 0 where
  pub csp : Option AppResourceCsp
  pub domain : String
  pub widget_description : String
  pub prefers_border : Option Bool

-- ConnectDomainsFunc takes the moment of the call, since what it answers changes.
pub record AppResource : Type 0 where
  pub uri : String
  pub name : String
  pub title : String
  pub description : String
  pub meta : AppResourceMeta
  pub connect_domains_func : Option (ℕ → List String)
  pub html : String

-- The `_meta` map of a resource: its ui block and the two aliases.
pub record UiMeta : Type 0 where
  pub ui : Option AppResourceMeta
  pub widget_domain : Option String
  pub widget_description : Option String

pub record Resource : Type 0 where
  pub uri : String
  pub name : String
  pub title : String
  pub description : String
  pub meta : UiMeta

pub record ResourceContents : Type 0 where
  pub uri : String
  pub html : String
  pub meta : UiMeta

-- appResourceReg; the handler is the closure over the resource as it was registered.
pub record AppResourceReg : Type 0 where
  pub meta : AppResourceMeta
  pub handler : AppResource
  pub resource : Resource

pub data ServerCall : Type 0 where
  add_resource : String → Resource → AppResource → ServerCall
  remove_resources : String → String → ServerCall

pub record Registry : Type 0 where
  pub servers : Dict (Dict AppResourceReg)
  pub calls : List ServerCall

abbrev pub empty_csp : AppResourceCsp
empty_csp = record { connect_domains = []; resource_domains = []; frame_domains = [] }

-- A deep copy; values have no aliases here.
abbrev pub clone_app_resource_csp : Option AppResourceCsp → AppResourceCsp
clone_app_resource_csp none = empty_csp
clone_app_resource_csp (some csp) = csp

abbrev pub non_empty : String → Option String
non_empty s = if str_eq s "" then none else some s

-- meta == (model.AppResourceMeta{})
abbrev pub is_empty_meta : AppResourceMeta → Bool
is_empty_meta meta = elim meta.csp [
  | some c ↦ false
  | none ↦ elim meta.prefers_border [
    | some b ↦ false
    | none ↦ str_eq meta.domain "" && str_eq meta.widget_description ""
  ]
]

unfoldable pub app_resource_ui_meta : AppResourceMeta → UiMeta
app_resource_ui_meta meta =
    if is_empty_meta meta
    then record { ui = none; widget_domain = none; widget_description = none }
    else (record {
      ui = some meta;
      widget_domain = non_empty meta.domain;
      widget_description = non_empty meta.widget_description;
    })

-- csp.ConnectDomains = origins, over a copy.
unfoldable pub with_connect_domains : List String → AppResourceMeta → AppResourceMeta
with_connect_domains origins meta = record meta {
  csp = some (record (clone_app_resource_csp meta.csp) { connect_domains = origins });
}

-- The handler of resources/read at a moment.
unfoldable pub read_resource : AppResource → ℕ → ResourceContents
unfolding app_resource_ui_meta with_connect_domains
read_resource res now =
    let meta : AppResourceMeta = elim res.connect_domains_func [
      | none ↦ res.meta
      | some f ↦ with_connect_domains (f now) res.meta
    ] in
    record { uri = res.uri; html = res.html; meta = app_resource_ui_meta meta }

abbrev pub listed : AppResource → Resource
listed res = record {
  uri = res.uri;
  name = res.name;
  title = res.title;
  description = res.description;
  meta = app_resource_ui_meta res.meta;
}

-- serverAppResources: the server's map, which it creates.
abbrev pub or_new : Option (Dict AppResourceReg) → Dict AppResourceReg
or_new none = []
or_new (some m) = m

abbrev pub server_app_resources : String → Registry → Dict AppResourceReg
server_app_resources srv reg = or_new (lookup srv reg.servers)

-- serverAppResources(srv)[uri] = r
abbrev pub store : String → String → AppResourceReg → Registry → Registry
store srv uri r reg = record reg {
  servers = insert srv (insert uri r (server_app_resources srv reg)) reg.servers;
}

abbrev pub call_server : ServerCall → Registry → Registry
call_server c reg = record reg { calls = c ∷ reg.calls }

-- The operations return whether there was no error.
unfoldable pub register_app_resource : Option String → AppResource → Registry → Bool × Registry
unfolding app_resource_ui_meta
register_app_resource none res reg = (false, reg)
register_app_resource (some srv) res reg = if str_eq res.uri "" then (false, reg) else (
  true,
  call_server (add_resource srv (listed res) res)
      (store srv res.uri (record { meta = res.meta; handler = res; resource = listed res }) reg),
)

-- What SetAppResourceConnectDomains stores for a registration.
unfoldable pub rebuilt : List String → AppResourceReg → AppResourceReg
unfolding app_resource_ui_meta with_connect_domains
rebuilt origins r =
    let meta : AppResourceMeta = with_connect_domains origins r.meta in
    record r { meta = meta; resource = record r.resource { meta = app_resource_ui_meta meta } }

-- The look-up creates the server's map, whether or not it has the URI.
unfoldable pub set_app_resource_connect_domains :
    Option String → String → List String → Registry → Bool × Registry
unfolding rebuilt
set_app_resource_connect_domains none uri origins reg = (false, reg)
set_app_resource_connect_domains (some srv) uri origins reg =
    let m = server_app_resources srv reg in
    elim (lookup uri m) [
      | none ↦ (false, record reg { servers = insert srv m reg.servers })
      | some r ↦ (
        true,
        call_server (add_resource srv (rebuilt origins r).resource (rebuilt origins r).handler)
            (store srv uri (rebuilt origins r) reg),
      )
    ]

-- delete(m, uri), and the server's entry with its last resource.
abbrev pub without :
    String → Dict AppResourceReg → Dict (Dict AppResourceReg) → Dict (Dict AppResourceReg)
without srv [] servers = delete srv servers
without srv (x ∷ m) servers = insert srv (x ∷ m) servers

unfoldable pub unregister_app_resource : Option String → String → Registry → Bool × Registry
unregister_app_resource none uri reg = (false, reg)
unregister_app_resource (some srv) uri reg = elim (lookup srv reg.servers) [
  | none ↦ (true, reg)
  | some m ↦ (
    true,
    call_server (remove_resources srv uri) (elim (lookup uri m) [
      | none ↦ reg
      | some r ↦ record reg { servers = without srv (delete uri m) reg.servers }
    ]),
  )
]
