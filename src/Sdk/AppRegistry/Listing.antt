-- ===== src/Sdk/AppRegistry/Listing.antt =====
-- What each operation of the registry leaves registered, under every server and URI.
use mcpplane.Common.{
  ◌≡◌, refl, ap, String, false, ◌&&◌, List, [], Option, none, some, if◌then◌else◌, lookup, insert,
  str_eq, str_eq_iff, lookup-insert, arith, Option-cases, inl, inr,
}
use mcpplane.Sdk.AppRegistry.{
  AppResource, AppResourceReg, Registry, listed, server_app_resources, store, register_app_resource,
  rebuilt, with_connect_domains, set_app_resource_connect_domains, app_resource_ui_meta,
}

abbrev pub registered : String → String → Registry → Option AppResourceReg
registered srv uri reg = lookup uri (server_app_resources srv reg)

abbrev pub rebuilt_if : List String → Option AppResourceReg → Option AppResourceReg
rebuilt_if origins none = none
rebuilt_if origins (some r) = some (rebuilt origins r)

pub lookup_nil : (u : String) → lookup {V = AppResourceReg} u [] ≡ none
unfolding lookup
lookup_nil u = refl

registered-store :
    (srv uri s u : String) (r : AppResourceReg) (reg : Registry)
    → registered s u (store srv uri r reg)
      ≡ (if str_eq srv s && str_eq uri u then some r else registered s u reg)
registered-store srv uri s u r reg = ground (
  arith,
  lookup-insert srv s (insert uri r (server_app_resources srv reg)) reg.servers,
  lookup-insert uri u r (server_app_resources srv reg),
  str_eq_iff srv s,
)

-- SetAppResourceConnectDomains rebuilds the registration of its server and URI, if there is one,
-- and leaves every other registration, of any server and URI, as it was.
pub registered-set :
    (srv uri s u : String) (origins : List String) (reg : Registry)
    → registered s u (set_app_resource_connect_domains (some srv) uri origins reg).1 ≡ (
        if str_eq srv s && str_eq uri u
        then rebuilt_if origins (registered s u reg)
        else registered s u reg)
unfolding set_app_resource_connect_domains
registered-set srv uri s u origins reg = elim (Option-cases (registered srv uri reg)) [
  | inl e ↦ ground (
    arith,
    e,
    lookup-insert srv s (server_app_resources srv reg) reg.servers,
    str_eq_iff srv s,
    str_eq_iff uri u,
  )
  | inr (r, e) ↦ ground (
    arith,
    e,
    registered-store srv uri s u (rebuilt origins r) reg,
    str_eq_iff srv s,
    str_eq_iff uri u,
  )
]

-- RegisterAppResource under a URI that is not empty registers the resource, and leaves every other
-- registration as it was.
pub registered-register :
    (srv s u : String) (res : AppResource) (reg : Registry)
    → str_eq res.uri "" ≡ false
    → registered s u (register_app_resource (some srv) res reg).1 ≡ (
        if str_eq srv s && str_eq res.uri u
        then some (record { meta = res.meta; handler = res; resource = listed res })
        else registered s u reg)
unfolding register_app_resource
registered-register srv s u res reg n = ground (
  arith,
  registered-store srv res.uri s u
      (record { meta = res.meta; handler = res; resource = listed res }) reg,
)

rebuilt-rebuilt :
    (origins later : List String) (r : AppResourceReg)
    → rebuilt later (rebuilt origins r) ≡ rebuilt later r
unfolding rebuilt with_connect_domains
rebuilt-rebuilt origins later r = refl

rebuilt_if-rebuilt_if :
    (origins later : List String) (o : Option AppResourceReg)
    → rebuilt_if later (rebuilt_if origins o) ≡ rebuilt_if later o
rebuilt_if-rebuilt_if origins later none = refl
rebuilt_if-rebuilt_if origins later (some r) = ap some (rebuilt-rebuilt origins later r)

-- The last call wins: after two calls for a URI, every registration is what the second one alone
-- would have left.
pub set-set :
    (srv uri s u : String) (origins later : List String) (reg : Registry)
    → registered s u
        (set_app_resource_connect_domains
          (some srv)
          uri
          later
          (set_app_resource_connect_domains (some srv) uri origins reg).1).1
      ≡ registered s u (set_app_resource_connect_domains (some srv) uri later reg).1
set-set srv uri s u origins later reg =
    let first = (set_app_resource_connect_domains (some srv) uri origins reg).1 in
    ground (
      arith,
      registered-set srv uri s u later first,
      registered-set srv uri s u later reg,
      registered-set srv uri s u origins reg,
      rebuilt_if-rebuilt_if origins later (registered s u reg),
    )

-- A registered resource whose connect domains were set is listed with these domains, with the other
-- domains and fields of its registration, and is read by the same handler.
pub rebuilt_kept :
    (origins : List String) (r : AppResourceReg)
    → ((rebuilt origins r).handler ≡ r.handler)
      × ((rebuilt origins r).resource.uri ≡ r.resource.uri)
      × ((rebuilt origins r).resource.meta.ui ≡ some (with_connect_domains origins r.meta))
unfolding rebuilt app_resource_ui_meta with_connect_domains
rebuilt_kept origins r = (refl, refl, refl)
