-- ===== src/Transfer/Sources.antt =====
-- transfer/upload_source.go: the choice of an upload's source, over the one-time endpoints, the fetch of
-- a file and the parser of data: URIs; transfer/wrap_name.go: the name of a wrapped file. Modes,
-- transports and features are strings, as in Go. The parser of net/url for a name and the sniffer
-- of net/http are interfaces.
pub mod Coherent
pub mod Features
pub mod Minting
pub mod Opened
use mcpplane.Common.{
  ℕ, zero, suc, String, Bool, true, false, ◌&&◌, ◌||◌, not, Option, none, some, List, [], ◌∷◌,
  if◌then◌else◌, Dict, lookup, str_eq, ℤ, pos, negsuc, Bytes, codes, bytes_eq, take, cut_prefix,
  is_some,
}
use mcpplane.Ieo.Relay.{
  Web, FileRelayOptions, Answer, Effects, RelayError, Opening, failed, opened, base, open_file_url,
  effective_relay_max_bytes,
}
use mcpplane.Ieo.DataUri.{
  FileDataUriOption, DataUriError, ParseResult, rejected, parsed, parse_file_data_uri,
}
use mcpplane.Transfer.Endpoint.{Upload, mint}

abbrev pub source_path : String
source_path = "path"

abbrev pub source_mint : String
source_mint = "mint"

abbrev pub source_url : String
source_url = "url"

abbrev pub source_data : String
source_data = "data"

abbrev pub transport_stdio : String
transport_stdio = "stdio"

abbrev pub transport_http : String
transport_http = "http"

abbrev pub transport_openai : String
transport_openai = "openai"

pub record UploadSource : Type 0 where
  pub mode : String
  pub path : Bytes
  pub url : Bytes
  pub data_uri : Bytes

pub data SourceError : Type 0 where
  requires_path requires_url requires_data mint_unconfigured mint_failed : SourceError
  unknown_mode : String → SourceError
  not_available : String → String → SourceError
  not_mint not_openable : String → SourceError
  relay_failed : RelayError → Effects → SourceError
  data_rejected : DataUriError → SourceError

-- model.FeatureSet and its Has: a missing key is false.
abbrev pub FeatureSet : Type 0
FeatureSet = Dict Bool

abbrev pub has : String → FeatureSet → Bool
has f fs = elim (lookup f fs) [ none ↦ false | some b ↦ b ]

-- The table of modes and features that the loop visits.
abbrev pub mode_features : List (String × String)
mode_features =
    (source_path, "source-path")
    ∷ (source_mint, "source-mint")
    ∷ (source_url, "source-url")
    ∷ (source_data, "source-data")
    ∷ []

unfoldable pub modes_among : FeatureSet → List (String × String) → List String
modes_among fs [] = []
modes_among fs ((mode, feat) ∷ rest) =
    if has feat fs then mode ∷ modes_among fs rest else modes_among fs rest

unfoldable pub source_mode_enum_from_features : FeatureSet → List String
unfolding modes_among
source_mode_enum_from_features fs = modes_among fs mode_features

unfoldable pub transport_kind_from_features : FeatureSet → String
transport_kind_from_features fs =
    if has "source-path" fs
    then transport_stdio
    else if has "source-mint" fs
    then transport_http
    else if has "source-url" fs || has "source-data" fs
    then transport_openai
    else transport_http

-- Available, of the mode.
unfoldable pub available : String → String → Bool
available mode t =
    if str_eq mode source_path
    then str_eq t transport_stdio
    else if str_eq mode source_mint
    then str_eq t transport_http
    else if str_eq mode source_url || str_eq mode source_data
    then str_eq t transport_openai
    else false

abbrev pub is_empty : Bytes → Bool
is_empty [] = true
is_empty (c ∷ s) = false

-- The switch of Validate: `none` falls through to the check of the transport.
unfoldable pub check_payload : UploadSource → Option SourceError
check_payload s =
    if str_eq s.mode source_path
    then (if is_empty s.path then some requires_path else none)
    else if str_eq s.mode source_mint
    then none
    else if str_eq s.mode source_url
    then (if is_empty s.url then some requires_url else none)
    else if str_eq s.mode source_data
    then (if is_empty s.data_uri then some requires_data else none)
    else some (unknown_mode s.mode)

unfoldable pub validate : String → UploadSource → Option SourceError
unfolding check_payload available
validate t s = elim (check_payload s) [
  | some e ↦ some e
  | none ↦ if available s.mode t then none else some (not_available s.mode t)
]

-- The upload that HTTPUpload points at, if it is set, is the state of the calls.
pub record SourceResolver : Type 0 where
  pub transport : String
  pub relay_allowed_hosts : List Bytes
  pub relay_max_bytes : ℤ
  pub has_client : Bool

pub data Minted : Type 0 where
  mint_refused : SourceError → Minted
  minted : String → Minted

abbrev pub of_mint : Option String → Minted
of_mint none = mint_refused mint_failed
of_mint (some token) = minted token

-- MintURL: the token stands for its URL.
unfoldable pub mint_url :
    {R : Type 0}
    → SourceResolver
    → UploadSource
    → Bool
    → ℕ
    → String
    → String
    → ℤ
    → String
    → Option (Upload R)
    → Minted × Option (Upload R)
unfolding validate mint
mint_url r s up now token name ttl jwt cu = elim (validate r.transport s) [
  | some e ↦ (mint_refused e, cu)
  | none ↦
      if not (str_eq s.mode source_mint) then (mint_refused (not_mint s.mode), cu) else (elim cu [
        | none ↦ (mint_refused mint_unconfigured, none)
        | some u ↦
            let answer = mint up now token name ttl jwt u in (of_mint answer.0, some answer.1)
      ])
]

pub record ParsedUrl : Type 0 where
  pub scheme : Bytes
  pub host : Bytes
  pub path : Bytes

abbrev pub is_root : Bytes → Bool
is_root s = bytes_eq s [] || bytes_eq s (codes ".") || bytes_eq s (codes "/")

-- path.Base is filepath.Base where the separator is '/'.
unfoldable pub relay_url_name : (Bytes → Option ParsedUrl) → Bytes → Bytes
unfolding base
relay_url_name parse raw = elim (parse raw) [
  | none ↦ []
  | some u ↦
      if is_empty u.host || is_empty u.scheme
      then []
      else if is_root (base u.path)
      then []
      else base u.path
]

-- What OpenBytes returns: a refusal, the body of a fetch, with its limit, size and cancel function, or
-- the payload of a data: URI, with its limit; then the name.
pub data OpenedBytes : Type 0 where
  refused : SourceError → OpenedBytes
  fetched : ℕ → ℕ → Bool → Effects → Bytes → OpenedBytes
  decoded : Bytes → ℤ → ℤ → Bytes → OpenedBytes

abbrev pub of_fetch : Bytes → Opening → OpenedBytes
of_fetch name (failed e effects) = refused (relay_failed e effects)
of_fetch name (opened limit size with_cancel effects) = fetched limit size with_cancel effects name

abbrev pub of_parse : ℤ → ParseResult → OpenedBytes
of_parse limit (rejected e) = refused (data_rejected e)
of_parse limit (parsed payload opt) = decoded payload limit opt.size opt.name

unfoldable pub resolver_limit : SourceResolver → ℤ
unfolding effective_relay_max_bytes
resolver_limit r = elim r.relay_max_bytes [
  | pos zero ↦ pos (effective_relay_max_bytes (pos 0))
  | pos (suc n) ↦ pos (suc n)
  | negsuc n ↦ negsuc n
]

-- Two minutes, in nanoseconds.
unfoldable pub fetch_options : SourceResolver → FileRelayOptions
unfolding resolver_limit
fetch_options r = record {
  has_client = r.has_client;
  allowed_hosts = r.relay_allowed_hosts;
  max_bytes = resolver_limit r;
  request_timeout = pos 120_000_000_000;
}

-- The switch of OpenBytes.
unfoldable pub open_valid :
    Web → (Bytes → Option ParsedUrl) → SourceResolver → UploadSource → Answer → OpenedBytes
unfolding fetch_options relay_url_name open_file_url parse_file_data_uri
open_valid web parse r s answer =
    if str_eq s.mode source_url
    then of_fetch (relay_url_name parse s.url) (open_file_url web s.url (fetch_options r) answer)
    else if str_eq s.mode source_data
    then of_parse (resolver_limit r) (parse_file_data_uri s.data_uri (resolver_limit r))
    else refused (not_openable s.mode)

unfoldable pub open_bytes :
    Web → (Bytes → Option ParsedUrl) → SourceResolver → UploadSource → Answer → OpenedBytes
unfolding validate open_valid
open_bytes web parse r s answer = elim (validate r.transport s) [
  | some e ↦ refused e
  | none ↦ open_valid web parse r s answer
]

-- ResolveWrappedFileName, over http.DetectContentType.
unfoldable pub resolve_wrapped_file_name : (Bytes → Bytes) → Bytes → Bool → Bytes → Bytes
unfolding cut_prefix
resolve_wrapped_file_name detect name wrap head =
    if not wrap
    then name
    else if not (is_empty name) && not (bytes_eq name (codes "upload"))
    then name
    else if is_some (cut_prefix (codes "text/html") (detect (take 512 head)))
    then codes "index.html"
    else []
