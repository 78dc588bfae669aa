-- ===== src/Sdk/Tests/Requests.antt =====
-- Concrete headers, claims and app resources.
use mcpplane.Common.{
  ◌≡◌, refl, true, none, some, [], ◌∷◌, codes, String-discrete, lookup, insert, to_lower,
  cut_prefix,
}
use mcpplane.Sdk.Redaction.{is_sensitive_header}
use mcpplane.Sdk.Claims.{text, object, Fields, no_fields, field, redact_fields}
use mcpplane.Sdk.Claims.Clean.{clean_fields, clean_fields-redact_fields}
use mcpplane.Sdk.AppRegistry.{
  AppResource, Registry, register_app_resource, set_app_resource_connect_domains,
}

is_sensitive_test : is_sensitive_header (codes "aUTHORIZATION") ≡ true
unfolding is_sensitive_header to_lower cut_prefix
is_sensitive_test = refl

abbrev claims : Fields
claims = field (codes "sub") (text (codes "me")) (
    field (codes "extra") (object (field (codes "refresh_token") (text (codes "s")) no_fields))
      no_fields)

clean_fields-redact_fields_example : clean_fields (redact_fields claims) ≡ true
clean_fields-redact_fields_example = clean_fields-redact_fields claims

abbrev app : AppResource
app = record {
  uri = "ui://a";
  name = "a";
  title = "A";
  description = "";
  meta = record { csp = none; domain = ""; widget_description = ""; prefers_border = none };
  connect_domains_func = none;
  html = "<p>";
}

abbrev registry : Registry
registry = (register_app_resource (some "s") app (record { servers = []; calls = [] })).1

set_test :
    (set_app_resource_connect_domains (some "s") "ui://a" ("https://x" ∷ []) registry).0 ≡ true
unfolding register_app_resource set_app_resource_connect_domains String-discrete lookup insert
set_test = refl
