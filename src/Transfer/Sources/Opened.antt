-- ===== src/Transfer/Sources/Opened.antt =====
-- What a resolver opens, and when it mints.
use mcpplane.Common.{ℕ, ◌<◌, ℤ, pos, negsuc, ◌≡◌, Bool, false, Bytes, has_byte}
use mcpplane.Ieo.Relay.{FileRelayOptions, Web, Answer, Effects}
use mcpplane.Ieo.Relay.Opened.{IsOpened}
use mcpplane.Ieo.DataUri.{FileDataUriOption}
use mcpplane.Ieo.DataUri.Parsed.{IsAccepted}
use mcpplane.Transfer.Sources.{
  SourceResolver, UploadSource, SourceError, OpenedBytes, refused, fetched, decoded, source_url,
  source_data, transport_openai,
}

-- The limit that a resolver's setting stands for: 512 MiB for 0.
pub data Limits : ℤ → ℤ → Type 0 where
  unset : Limits (pos 0) (pos 536_870_912)
  as_set : (n : ℕ) → 0 < n → Limits (pos n) (pos n)
  negative : (n : ℕ) → Limits (negsuc n) (negsuc n)

-- What an opened source has.
pub data IsOpenedBytes (web : Web) (r : SourceResolver) (s : UploadSource) (answer : Answer)
    : OpenedBytes → Type 0 where
  is_refused : (e : SourceError) → IsOpenedBytes web r s answer (refused e)
  is_fetched :
      (m n : ℕ) (c : Bool) (e : Effects) (name : Bytes) (opts : FileRelayOptions)
      → (s.mode ≡ source_url) × (r.transport ≡ transport_openai)
      → opts.allowed_hosts ≡ r.relay_allowed_hosts
      → opts.request_timeout ≡ pos 120_000_000_000
      → Limits r.relay_max_bytes (pos m)
      → IsOpened web s.url opts answer m n
      → has_byte b'/' name ≡ false
      → IsOpenedBytes web r s answer (fetched m n c e name)
  is_decoded :
      (payload : Bytes) (opt : FileDataUriOption) (limit : ℤ)
      → (s.mode ≡ source_data) × (r.transport ≡ transport_openai)
      → Limits r.relay_max_bytes limit
      → IsAccepted s.data_uri limit payload opt
      → IsOpenedBytes web r s answer (decoded payload limit opt.size opt.name)
