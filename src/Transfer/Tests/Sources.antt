-- ===== src/Transfer/Tests/Sources.antt =====
-- A source of mode url on the OpenAI tunnel, whose fetch the server answers.
use mcpplane.Common.{
  ◌≡◌, refl, true, false, none, some, [], ◌∷◌, Bytes, codes, pos, Option, String-discrete, lookup,
}
use mcpplane.Ieo.Addresses.{v4}
use mcpplane.Ieo.Relay.{Url, Web, Answer, answered}
use mcpplane.Transfer.Sources.Features.{source_mode_enum_from_features-available}
use mcpplane.Transfer.Sources.{
  FeatureSet, available, transport_kind_from_features, UploadSource, SourceResolver, ParsedUrl,
  OpenedBytes, fetched, resolve_wrapped_file_name, source_mode_enum_from_features,
}

abbrev file_url : Url
file_url = record { scheme = codes "https"; hostname = codes "cdn.example.com"; has_user = false }

abbrev web : Web
web = record {
  parse_url = λ s. some file_url;
  network = record { parse_addr = λ s. none; lookup_net_ip = λ s. some (v4 93 184 216 34 ∷ []) };
}

abbrev parse : Bytes → Option ParsedUrl
parse s =
    some
      (record { scheme = codes "https"; host = codes "cdn.example.com"; path = codes "/a/f.html" })

abbrev resolver : SourceResolver
resolver = record {
  transport = "openai";
  relay_allowed_hosts = codes "example.com" ∷ [];
  relay_max_bytes = pos 100;
  has_client = false;
}

abbrev source : UploadSource
source = record {
  mode = "url";
  path = [];
  url = codes "https://cdn.example.com/a/f.html";
  data_uri = [];
}

abbrev answer : Answer
answer = answered [] 200 (pos 90)

abbrev body : OpenedBytes
body = fetched 100 90 true (record { cancels = 0; closes = 0 }) (codes "f.html")

wrapped_test :
    resolve_wrapped_file_name
      (λ s. codes "text/html; charset=utf-8")
      (codes "upload")
      true
      (codes "<html>")
    ≡ codes "index.html"
unfolding resolve_wrapped_file_name
wrapped_test = refl

abbrev tunnel : FeatureSet
tunnel = ("source-data", true) ∷ ("source-url", true) ∷ ("source-mint", false) ∷ []

modes_test : source_mode_enum_from_features tunnel ≡ "url" ∷ "data" ∷ []
unfolding source_mode_enum_from_features String-discrete lookup
modes_test = refl

source_mode_enum_from_features-available_example :
    available "url" (transport_kind_from_features tunnel) ≡ true
source_mode_enum_from_features-available_example =
    source_mode_enum_from_features-available tunnel "url" ("data" ∷ []) modes_test
