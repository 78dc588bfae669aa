-- ===== src/Sdk/AppRegistry/Releasing.antt =====
-- What is released, and what is not.
use mcpplane.Common.{
  ◌≡◌, String, ◌&&◌, List, [], ◌∷◌, none, some, if◌then◌else◌, Dict, lookup, delete, str_eq,
  str_eq_iff, str_eq_self, lookup-insert, lookup-delete, arith, Option-cases, inl, inr,
}
use mcpplane.Sdk.AppRegistry.{
  AppResourceReg, Registry, or_new, set_app_resource_connect_domains, without,
  unregister_app_resource,
}
use mcpplane.Sdk.AppRegistry.Listing.{registered, lookup_nil}

or_new-without :
    (srv s u : String) (m : Dict AppResourceReg) (servers : Dict (Dict AppResourceReg))
    → lookup u (or_new (lookup s (without srv m servers)))
      ≡ (if str_eq srv s then lookup u m else lookup u (or_new (lookup s servers)))
unfolding lookup
or_new-without srv s u [] servers = ground (arith, lookup-delete srv s servers)
or_new-without srv s u (x ∷ m) servers = ground (arith, lookup-insert srv s (x ∷ m) servers)

-- UnregisterAppResource releases the registration of its server and URI, and no other.
pub registered-unregister :
    (srv uri s u : String) (reg : Registry)
    → registered s u (unregister_app_resource (some srv) uri reg).1
      ≡ (if str_eq srv s && str_eq uri u then none else registered s u reg)
unfolding unregister_app_resource
registered-unregister srv uri s u reg = elim (Option-cases (lookup srv reg.servers)) [
  | inl e ↦ ground (arith, e, str_eq_iff srv s, str_eq_iff uri u, lookup_nil u)
  | inr (m, e) ↦ elim (Option-cases (lookup uri m)) [
    | inl f ↦ ground (arith, e, f, str_eq_iff srv s, str_eq_iff uri u)
    | inr (r, f) ↦ ground (
      arith,
      e,
      f,
      or_new-without srv s u (delete uri m) reg.servers,
      lookup-delete uri u m,
      str_eq_iff srv s,
      str_eq_iff uri u,
    )
  ]
]

-- A call of SetAppResourceConnectDomains for a server without resources leaves an empty map under the
-- server, which no UnregisterAppResource of the server drops.
pub unregister-set :
    (srv uri other : String) (origins : List String) (reg : Registry)
    → lookup srv reg.servers ≡ none
    → lookup srv
        (unregister_app_resource
          (some srv)
          other
          (set_app_resource_connect_domains (some srv) uri origins reg).1).1.servers
      ≡ some []
unfolding unregister_app_resource set_app_resource_connect_domains lookup
unregister-set srv uri other origins reg e =
    ground (arith, e, lookup-insert srv srv [] reg.servers, str_eq_self srv)
