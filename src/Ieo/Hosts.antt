-- ===== src/Ieo/Hosts.antt =====
-- ieo/file_relay.go: the hosts that a relayed download may come from. Host names are ASCII.
pub mod Accepted
use mcpplane.Common.{
  Bool, true, false, List, [], ◌∷◌, Option, none, some, if◌then◌else◌, Bytes, codes, bytes_eq,
  cut_prefix, cut_suffix, is_some, to_lower, trim_space, has_byte, ◌||◌,
}
use mcpplane.Ieo.Addresses.{trim_dot}

-- host == candidate || strings.HasSuffix(host, "."+candidate)
abbrev pub matches : Bytes → Bytes → Bool
matches host candidate = bytes_eq host candidate || is_some (cut_suffix (b'.' ∷ candidate) host)

unfoldable pub host_allowed : Bytes → List Bytes → Bool
host_allowed host [] = false
host_allowed host (candidate ∷ allowed) =
    let rest = host_allowed (to_lower host) allowed in
    if matches (to_lower host) (to_lower (trim_space candidate)) then true else rest

abbrev pub blob_suffix : Bytes
blob_suffix = codes ".blob.core.windows.net"

-- chatgptBlobAccountPrefixes
abbrev pub blob_account_prefixes : List Bytes
blob_account_prefixes = codes "oaisd" ∷ []

unfoldable pub any_prefix : Bytes → List Bytes → Bool
any_prefix account [] = false
any_prefix account (p ∷ ps) = if is_some (cut_prefix p account) then true else any_prefix account ps

-- The account is the name before the suffix.
unfoldable pub account_allowed : Bytes → Bool
unfolding any_prefix
account_allowed account =
    if bytes_eq account [] || has_byte b'.' account
    then false
    else any_prefix account blob_account_prefixes

unfoldable pub chatgpt_blob_host_allowed : Bytes → Bool
unfolding account_allowed
chatgpt_blob_host_allowed host =
    elim (cut_suffix blob_suffix (to_lower (trim_dot (trim_space host)))) [
      | none ↦ false
      | some account ↦ account_allowed account
    ]
