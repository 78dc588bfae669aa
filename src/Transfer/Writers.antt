-- ===== src/Transfer/Writers.antt =====
-- transfer/download_limits.go and transfer/download_sink.go: the capped writer of a download, and
-- where a download's bytes can land. A function that writes to an io.Writer is a program: it hands
-- over chunks, sees what each write returned, and ends with an error or without. A count of bytes is
-- a natural number: what a process writes stays below 2 ^ 63.
pub mod Caps
use mcpplane.Common.{
  ℕ, ◌+◌, ◌≡◌, refl, String, Bool, true, false, ◌&&◌, not, List, [], ◌∷◌, ◌++◌, map, Option, none,
  some, ltb, if◌then◌else◌, length, Bytes, codes, ℤ, pos, negsuc, str_eq,
}
use mcpplane.Transfer.Names.{itoa}

-- An error of a stream: downloadTooLargeError, any other, or one that wraps an error.
pub data StreamError : Type 0 where
  too_large : ℤ → StreamError
  failure : String → StreamError
  wrapped : String → StreamError → StreamError

unfoldable pub is_download_too_large : StreamError → Bool
is_download_too_large (too_large cap_bytes) = true
is_download_too_large (failure text) = false
is_download_too_large (wrapped text e) = is_download_too_large e

-- Error: a wrapping error has a text of its own, which usually ends in the wrapped one's.
unfoldable pub error_text : StreamError → Bytes
unfolding itoa
error_text (too_large cap_bytes) =
    codes "download exceeds max_mcp_upload_size (" ++ itoa cap_bytes ++ codes " bytes)"
error_text (failure text) = codes text
error_text (wrapped text e) = codes text

-- func(w io.Writer) error, by its calls of w.Write.
pub data Source : Type 0 where
  done : Option StreamError → Source
  write : Bytes → (ℕ × Option StreamError → Source) → Source

-- lw.maxBytes > 0 && n > lw.maxBytes
unfoldable pub exceeds : ℤ → ℕ → Bool
exceeds (pos m) n = ltb 0 m && ltb m n
exceeds (negsuc m) n = false

-- A program that runs over NewSizeLimitedWriter(w, max) is this program over w, where `written` is
-- the writer's count.
unfoldable pub size_limited : ℤ → ℕ → Source → Source
unfolding exceeds
size_limited max_bytes written (done e) = done e
size_limited max_bytes written (write p next) =
    let refused = size_limited max_bytes written (next (0, some (too_large max_bytes))) in
    let passed : ℕ × Option StreamError → Source =
      λ r. size_limited max_bytes (written + r.0) (next r) in
    if exceeds max_bytes (written + length p) then refused else write p passed

-- io.Copy: the chunks in order, up to the first error.
unfoldable pub copies : List Bytes → Source
copies [] = done none
copies (p ∷ ps) =
    let rest = copies ps in write p (λ r. elim r.1 [ none ↦ rest | some e ↦ done (some e) ])

pub data DownloadSink : Type 0 where
  local drop : DownloadSink

abbrev pub sink_text : DownloadSink → String
sink_text local = "local"
sink_text drop = "drop"

-- Valid, on the text of a sink.
unfoldable pub sink_valid : String → Bool
sink_valid s = if str_eq s "local" then true else str_eq s "drop"

unfoldable pub download_sinks_for : Bool → Bool → List DownloadSink
download_sinks_for drop_wired tunnel_open_ai =
    if drop_wired && not tunnel_open_ai then local ∷ drop ∷ [] else local ∷ []

unfoldable pub sink_enum_values : Bool → Bool → List String
unfolding download_sinks_for
sink_enum_values drop_wired tunnel_open_ai =
    map sink_text (download_sinks_for drop_wired tunnel_open_ai)
