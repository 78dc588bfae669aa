-- ===== src/Apps/Tests.antt =====
-- A view with one helper, on a server whose registrar refuses it.
use mcpplane.Common.{◌≡◌, refl, true, false, none, some, [], ◌∷◌, str_eq, String-discrete, lookup}
use mcpplane.Sdk.AppTools.{registrar_failed}
use mcpplane.Apps.{AppView, Host, register_app_view, helper_failed, new_app_registry}
use mcpplane.Apps.Wiring.{rest_of, register_app_view-refused}

abbrev view : AppView
view = record {
  uri = "ui://a";
  name = "a";
  title = "A";
  description = "";
  html = "<p>";
  domain = "";
  prefers_border = false;
  connect_domains_func = none;
  attach_to = "upload_file" ∷ [];
  helpers = record { name = "first"; meta = [] } ∷ record { name = "second"; meta = [] } ∷ [];
}

-- The registrar takes the first helper and refuses the second.
abbrev host : Host
host = record {
  apps = new_app_registry;
  catalog = ("upload_file", []) ∷ [];
  resources = record { servers = []; calls = [] };
  tools = record { registrar = some (λ srv desc. str_eq desc.name "first"); accepted = [] };
}

second_fails :
    (register_app_view (some "s") true view 0 host).0 ≡ some (helper_failed registrar_failed)
unfolding register_app_view String-discrete lookup
second_fails = refl

register_app_view-refused_example :
    rest_of (register_app_view (some "s") true view 0 host).1 ≡ rest_of host
register_app_view-refused_example =
    register_app_view-refused (some "s") true view 0 host (helper_failed registrar_failed)
      second_fails
