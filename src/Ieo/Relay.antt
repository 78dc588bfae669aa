-- ===== src/Ieo/Relay.antt =====
-- ieo/file_relay.go: the fetch of a public file. The parser of net/url and the network are an interface;
-- what the server sends (its redirects, in order, and its last answer) is given. A count of the
-- calls of the request's cancel function and of the body's Close tells what is left open.
pub mod Names
pub mod Opened
use mcpplane.Common.{
  ℕ, zero, suc, ◌+◌, ◌*◌, ◌≡◌, refl, Bool, true, false, ◌&&◌, ◌||◌, not, List, [], ◌∷◌, ◌++◌,
  Option, none, some, ltb, leb, ◌==◌, if◌then◌else◌, length, Bytes, codes, bytes_eq, trim_space, ℤ,
  pos, negsuc, positive_or, second,
}
use mathlib.Core.List.{reverse}
use mcpplane.Ieo.Addresses.{Addr, Network, resolve_public_ip, accepts_host}
use mcpplane.Ieo.Hosts.{host_allowed, chatgpt_blob_host_allowed}

-- defaultRelayMaxBytes, 512 MiB.
abbrev pub default_relay_max_bytes : ℕ
default_relay_max_bytes = 536_870_912

abbrev pub max_relay_redirects : ℕ
max_relay_redirects = 3

unfoldable pub effective_relay_max_bytes : ℤ → ℕ
effective_relay_max_bytes max_bytes = positive_or max_bytes default_relay_max_bytes

pub record Url : Type 0 where
  pub scheme : Bytes
  pub hostname : Bytes
  pub has_user : Bool

pub record Web : Type 0 where
  pub parse_url : Bytes → Option Url
  pub network : Network

pub record ChatGptFileReference : Type 0 where
  pub download_url : Bytes
  pub file_id : Bytes
  pub mime_type : Bytes
  pub file_name : Bytes

pub record FileRelayOptions : Type 0 where
  pub has_client : Bool
  pub allowed_hosts : List Bytes
  pub max_bytes : ℤ
  pub request_timeout : ℤ

pub data RelayError : Type 0 where
  invalid_reference host_not_allowed too_large create_failed fetch_failed bad_status : RelayError

abbrev pub is_blank : Bytes → Bool
is_blank s = bytes_eq (trim_space s) []

abbrev pub is_negative : ℤ → Bool
is_negative (pos n) = false
is_negative (negsuc n) = true

-- Whether validateHTTPFileURL returns nil.
unfoldable pub validate_http_file_url : Web → Bytes → ℤ → Bool
validate_http_file_url web raw max_bytes =
    if is_blank raw then true else (elim (web.parse_url raw) [
      | none ↦ false
      | some u ↦
          if not (bytes_eq u.scheme (codes "https")) || bytes_eq u.hostname [] || u.has_user
          then false
          else not (is_negative max_bytes)
    ])

abbrev pub skip_slashes : Bytes → Bytes
skip_slashes [] = []
skip_slashes (c ∷ s) = if c == b'/' then skip_slashes s else c ∷ s

abbrev pub until_slash : Bytes → Bytes
until_slash [] = []
until_slash (c ∷ s) = if c == b'/' then [] else c ∷ until_slash s

-- filepath.Base, from the last byte on.
unfoldable pub base : Bytes → Bytes
base [] = codes "."
base (c ∷ s) =
    let last = reverse (until_slash (skip_slashes (reverse (c ∷ s)))) in
    if bytes_eq last [] then codes "/" else last

unfoldable pub valid_file_name : Bytes → Bool
unfolding base
valid_file_name name =
    if bytes_eq name []
    then true
    else (bytes_eq (base name) name
        && not (bytes_eq (base name) (codes "."))
        && not (bytes_eq (base name) (codes "..")))

unfoldable pub validate_chatgpt_file_reference : Web → ChatGptFileReference → ℤ → Bool
unfolding validate_http_file_url valid_file_name
validate_chatgpt_file_reference web ref max_bytes =
    if is_blank ref.file_id || is_blank ref.download_url
    then false
    else validate_http_file_url web ref.download_url max_bytes && valid_file_name ref.file_name

-- len(allowed) > 0 && !hostAllowed(host, allowed)
abbrev pub is_excluded : Bytes → List Bytes → Bool
is_excluded host [] = false
is_excluded host (a ∷ allowed) = not (host_allowed host (a ∷ allowed))

-- CheckRedirect, for a request that follows `via` others.
unfoldable pub check_redirect : Web → List Bytes → Url → ℕ → Bool
check_redirect web allowed u via =
    if leb max_relay_redirects via
    then false
    else if not (bytes_eq u.scheme (codes "https")) || is_excluded u.hostname allowed
    then false
    else accepts_host web.network u.hostname

-- Whether the client follows these redirects, of which the first follows one request.
unfoldable pub follows : Web → List Bytes → ℕ → List Url → Bool
unfolding check_redirect
follows web allowed via [] = true
follows web allowed via (u ∷ us) =
    if check_redirect web allowed u via then follows web allowed (suc via) us else false

-- The DialContext of ssrfGuardedTransport: the address that is dialed for a host and a port, which
-- net.SplitHostPort found, and no proxy.
unfoldable pub dial_context : Web → Option (Bytes × Bytes) → Option (Addr × Bytes)
dial_context web none = none
dial_context web (some (host, port)) = elim (resolve_public_ip web.network host) [
  | none ↦ none
  | some ip ↦ some (ip, port)
]

-- What the server sends: the redirects, then a status and a Content-Length, negative if unknown.
pub data Answer : Type 0 where
  no_request unreachable : Answer
  answered : List Url → ℕ → ℤ → Answer

pub record Effects : Type 0 where
  pub cancels : ℕ
  pub closes : ℕ

pub data Opening : Type 0 where
  failed : RelayError → Effects → Opening
  opened : ℕ → ℕ → Bool → Effects → Opening

-- A context with a deadline is there only for a positive RequestTimeout.
abbrev pub has_cancel : FileRelayOptions → Bool
has_cancel opts = elim opts.request_timeout [ pos n ↦ ltb 0 n | negsuc n ↦ false ]

-- defer func() { if cancel != nil && !handedOff { cancel() } }
abbrev pub give_up : FileRelayOptions → RelayError → ℕ → Opening
give_up opts e closes =
    failed e (record { cancels = if has_cancel opts then 1 else 0; closes = closes })

-- if maxBytes == 0 { maxBytes = defaultRelayMaxBytes }
abbrev pub relay_limit : ℤ → ℤ
relay_limit (pos zero) = pos default_relay_max_bytes
relay_limit (pos (suc n)) = pos (suc n)
relay_limit (negsuc n) = negsuc n

-- OpenFileURL from the answer on.
unfoldable pub take_answer : Web → FileRelayOptions → Answer → Opening
unfolding follows
take_answer web opts no_request = give_up opts create_failed 0
take_answer web opts unreachable = give_up opts fetch_failed 0
take_answer web opts (answered us status content_length) =
    if not (follows web opts.allowed_hosts 1 us)
    then give_up opts fetch_failed 0
    else if ltb status 200 || leb 300 status
    then give_up opts bad_status 1
    else (elim content_length [
      | negsuc n ↦ give_up opts invalid_reference 1
      | pos n ↦ elim (relay_limit opts.max_bytes) [
        | negsuc m ↦ give_up opts too_large 1
        | pos m ↦
            if ltb m n
            then give_up opts too_large 1
            else opened m n (has_cancel opts) (record { cancels = 0; closes = 0 })
      ]
    ])

abbrev pub hostname_of : Option Url → Bytes
hostname_of none = []
hostname_of (some u) = u.hostname

unfoldable pub open_file_url : Web → Bytes → FileRelayOptions → Answer → Opening
unfolding validate_http_file_url take_answer
open_file_url web raw opts answer =
    let nothing : Effects = record { cancels = 0; closes = 0 } in
    if not (validate_http_file_url web raw (relay_limit opts.max_bytes))
    then failed invalid_reference nothing
    else if is_excluded (hostname_of (web.parse_url raw)) opts.allowed_hosts
    then failed host_not_allowed nothing
    else take_answer web opts answer

-- Close of the reader that was returned: cancelOnClose.Close.
unfoldable pub close_body : Bool → Effects → Effects
close_body with_cancel e = record {
  cancels = if with_cancel then suc e.cancels else e.cancels;
  closes = suc e.closes;
}

-- The allowlist with the host of an OpenAI storage account added at its end.
unfoldable pub admit_blob_host : Bytes → FileRelayOptions → FileRelayOptions
admit_blob_host host opts =
    if not (bytes_eq host []) && chatgpt_blob_host_allowed host
    then record opts { allowed_hosts = opts.allowed_hosts ++ host ∷ [] }
    else opts

unfoldable pub open_chatgpt_file : Web → ChatGptFileReference → FileRelayOptions → Answer → Opening
unfolding validate_chatgpt_file_reference admit_blob_host open_file_url
open_chatgpt_file web ref opts answer =
    if not (validate_chatgpt_file_reference web ref (relay_limit opts.max_bytes))
    then failed invalid_reference (record { cancels = 0; closes = 0 })
    else open_file_url web ref.download_url
        (admit_blob_host (hostname_of (web.parse_url ref.download_url)) opts) answer
