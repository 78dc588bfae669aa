-- ===== src/Ieo/Tests/Fetches.antt =====
-- A concrete fetch: a host of two addresses, and a redirect.
use mcpplane.Common.{
  cut_prefix, has_byte, Bytes, ◌≡◌, ◌↔◌, refl, true, false, none, some, [], ◌∷◌, arith, pos, codes,
  to_lower, cut_suffix, trim_space,
}
use mcpplane.Ieo.Addresses.{
  v4, value, Network, is_private_ip, trim_dot, resolve_public_ip, accepts_host,
}
use mcpplane.Ieo.Addresses.Ranges.{in_ranges, refused_ranges, is_private_ip-v4}
use mcpplane.Ieo.Hosts.{host_allowed, chatgpt_blob_host_allowed}
use mcpplane.Ieo.Hosts.Accepted.{
  Listed, host_allowed-Listed, IsBlobHost, chatgpt_blob_host_allowed-IsBlobHost,
}
use mcpplane.Ieo.Relay.{
  Url, Web, FileRelayOptions, Answer, answered, open_file_url, take_answer, has_cancel,
  dial_context,
}
use mcpplane.Ieo.Relay.Opened.{
  IsOpened, open_file_url-IsOpened, settled, one_if, arrived, take_answer-settled,
  dial_context-public,
}

abbrev network : Network
network = record {
  parse_addr = λ s. none;
  lookup_net_ip = λ s. some (v4 93 184 216 34 ∷ v4 10 0 0 1 ∷ []);
}

abbrev file_url : Url
file_url = record { scheme = codes "https"; hostname = codes "cdn.example.com"; has_user = false }

abbrev web : Web
web = record { parse_url = λ s. some file_url; network = network }

abbrev options : FileRelayOptions
options = record {
  has_client = false;
  allowed_hosts = codes "Example.com " ∷ [];
  max_bytes = pos 100;
  request_timeout = pos 5;
}

abbrev answer : Answer
answer = answered (file_url ∷ []) 200 (pos 90)

dial_context-public_example : is_private_ip (v4 93 184 216 34) ≡ false
unfolding dial_context resolve_public_ip
dial_context-public_example =
    dial_context-public web (some (codes "cdn.example.com", codes "443")) (v4 93 184 216 34)
      (codes "443") refl

open_file_url-IsOpened_example :
    IsOpened web (codes "https://cdn.example.com/f") options answer 100 90
unfolding open_file_url host_allowed to_lower cut_suffix trim_space accepts_host trim_dot
open_file_url-IsOpened_example =
    open_file_url-IsOpened web (codes "https://cdn.example.com/f") options answer 100 90 true
      (record { cancels = 0; closes = 0 }) refl

take_answer-settled_example :
    settled (take_answer web options answer)
    ≡ record { cancels = one_if (has_cancel options); closes = one_if (arrived web options answer) }
take_answer-settled_example = take_answer-settled web options answer

is_private_ip-v4_example :
    is_private_ip (v4 100 64 0 1) ≡ in_ranges (value 100 64 0 1) refused_ranges
is_private_ip-v4_example =
    is_private_ip-v4 100 64 0 1 (omega arith) (omega arith) (omega arith) (omega arith)

host_allowed-Listed_example :
    (host_allowed (codes "cdn.example.com") (codes "Example.com " ∷ []) ≡ true)
    ↔ Listed (to_lower (codes "cdn.example.com")) (codes "Example.com " ∷ [])
host_allowed-Listed_example =
    host_allowed-Listed (codes "cdn.example.com") (codes "Example.com " ∷ [])

blob_host : chatgpt_blob_host_allowed (codes " OAISDmnt.blob.core.windows.net.") ≡ true
unfolding chatgpt_blob_host_allowed trim_space trim_dot to_lower cut_suffix cut_prefix has_byte
blob_host = refl

chatgpt_blob_host_allowed-IsBlobHost_example :
    (account : Bytes) × IsBlobHost
      (to_lower (trim_dot (trim_space (codes " OAISDmnt.blob.core.windows.net."))))
      account
chatgpt_blob_host_allowed-IsBlobHost_example =
    chatgpt_blob_host_allowed-IsBlobHost (codes " OAISDmnt.blob.core.windows.net.") blob_host
