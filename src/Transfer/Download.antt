-- ===== src/Transfer/Download.antt =====
-- transfer/download_http.go: the one-time download endpoints. The mutex makes each section one step;
-- a token is random and given, and so are the clock's readings and the outcome of EnsureLoopback
-- (`up`). A cleanup hook is a number, and `released` lists the hooks that were called, the last one
-- first. A name is a list of code points.
pub mod Sending
pub mod Answers
pub mod Hooks
pub mod Claims
pub mod Capped
use mcpplane.Common.{
  ℕ, zero, suc, ◌+◌, ◌-◌, ◌*◌, String, Bool, true, false, ◌||◌, not, Option, none, some, List, [],
  ◌∷◌, ◌++◌, ltb, leb, if◌then◌else◌, Dict, lookup, insert, delete, str_eq, ℤ, pos, negsuc,
  positive_or, minute, length, Bytes, codes, take,
}
use mcpplane.Transfer.Names.{itoa, sanitize_filename}
use mcpplane.Transfer.Writers.{
  StreamError, failure, is_download_too_large, error_text, Source, done, write,
}

abbrev pub default_http_download_ttl : ℕ
default_http_download_ttl = 5 * minute

pub record DownloadToken : Type 0 where
  pub name : Bytes
  pub size : ℤ
  pub serve : String → Source
  pub expires_at : ℕ
  pub used : Bool
  pub cleanup : Option ℕ
  pub jwt : String

pub record Download : Type 0 where
  pub tokens : Dict DownloadToken
  pub released : List ℕ

abbrev pub initial : Download
initial = record { tokens = []; released = [] }

-- The hook of a token, if it has one.
unfoldable pub release : DownloadToken → List ℕ → List ℕ
release t log = elim t.cleanup [ none ↦ log | some hook ↦ hook ∷ log ]

-- The loop of `Mint` over the tokens.
unfoldable pub prune_downloads : ℕ → Dict DownloadToken → Download → Download
unfolding release
prune_downloads now [] hd = hd
prune_downloads now ((token, t) ∷ rest) hd = prune_downloads now rest (
    if ltb t.expires_at now
    then record { tokens = delete token hd.tokens; released = release t hd.released }
    else hd)

-- if name == "" { name = DefaultUploadName }
abbrev pub download_name : Bytes → Bytes
download_name [] = codes "upload"
download_name (c ∷ s) = c ∷ s

-- if len(cleanup) > 0 { cleanupFn = cleanup[0] }
abbrev pub first_hook : List (Option ℕ) → Option ℕ
first_hook [] = none
first_hook (h ∷ hs) = h

abbrev pub minted : ℕ → Bytes → ℤ → (String → Source) → ℤ → List (Option ℕ) → String → DownloadToken
minted now name size serve ttl cleanup jwt = record {
  name = download_name name;
  size = size;
  serve = serve;
  expires_at = now + positive_or ttl default_http_download_ttl;
  used = false;
  cleanup = first_hook cleanup;
  jwt = jwt;
}

-- `none` is an error: no serve function, or no listener.
unfoldable pub mint :
    Bool
    → ℕ
    → String
    → Bytes
    → ℤ
    → Option (String → Source)
    → ℤ
    → List (Option ℕ)
    → String
    → Download
    → Option String × Download
unfolding prune_downloads
mint up now token name size none ttl cleanup jwt hd = (none, hd)
mint false now token name size (some serve) ttl cleanup jwt hd = (none, hd)
mint true now token name size (some serve) ttl cleanup jwt hd =
    let hd' : Download = prune_downloads now hd.tokens hd in
    (
      some token,
      record hd' { tokens = insert token (minted now name size serve ttl cleanup jwt) hd'.tokens },
    )

unfoldable pub claim : ℕ → String → Download → Option DownloadToken × Download
unfolding release
claim now token hd = elim (lookup token hd.tokens) [
  | none ↦ (none, hd)
  | some t ↦
      if t.used || ltb t.expires_at now
      then (none, record { tokens = delete token hd.tokens; released = release t hd.released })
      else (
        some (record t { used = true }),
        record hd { tokens = insert token (record t { used = true }) hd.tokens },
      )
]

-- The http.ResponseWriter of net/http below the deferred writer: the Content-Length that the handler
-- has set, the status once it is sent, the bytes sent after it, how many more the connection takes
-- before it breaks, and the bytes that the handler has asked to write.
pub record Wire : Type 0 where
  pub declared : Option ℕ
  pub status : Option ℕ
  pub body : Bytes
  pub room : ℕ
  pub written : ℕ

abbrev pub fresh_wire : Option ℕ → ℕ → Wire
fresh_wire declared room = record {
  declared = declared;
  status = none;
  body = [];
  room = room;
  written = 0;
}

-- The first status stands.
abbrev pub send_header : ℕ → Wire → Wire
send_header code w = elim w.status [ none ↦ record w { status = some code } | some s ↦ w ]

-- Whether a write of n bytes goes beyond the Content-Length; no write of no bytes does.
abbrev pub is_surplus : ℕ → Option ℕ → ℕ → Bool
is_surplus zero declared written = false
is_surplus (suc n) none written = false
is_surplus (suc n) (some length) written = ltb length (written + suc n)

-- net/http sends nothing of a write beyond the Content-Length and answers it with ErrContentLength.
unfoldable pub send : Bytes → Wire → (ℕ × Option StreamError) × Wire
send p w =
    if is_surplus (length p) w.declared w.written
    then ((0, some (failure "wrote too much")), record w { written = w.written + length p })
    else if leb (length p) w.room
    then (
      (length p, none),
      record w { body = w.body ++ p; room = w.room - length p; written = w.written + length p },
    )
    else (
      (w.room, some (failure "broken connection")),
      record w { body = w.body ++ take w.room p; room = 0; written = w.written + length p },
    )

-- http.Error, which drops the Content-Length and writes the text and a line feed.
unfoldable pub http_error : Bytes → ℕ → Wire → Wire
unfolding send
http_error text code w =
    (send (text ++ 10 ∷ []) (send_header code (record w { declared = none }))).1

pub record DeferredResponseWriter : Type 0 where
  pub response_writer : Wire
  pub wrote_header : Bool
  pub status : ℕ

unfoldable pub write_header : ℕ → DeferredResponseWriter → DeferredResponseWriter
write_header code dw = if dw.wrote_header then dw else (record {
  response_writer = send_header code dw.response_writer;
  wrote_header = true;
  status = code;
})

unfoldable pub write_deferred :
    Bytes → DeferredResponseWriter → (ℕ × Option StreamError) × DeferredResponseWriter
unfolding write_header send
write_deferred p dw =
    let dw' : DeferredResponseWriter = if not dw.wrote_header then write_header 200 dw else dw in
    let (r, w) = send p dw'.response_writer in (r, record dw' { response_writer = w })

unfoldable pub finish : DeferredResponseWriter → DeferredResponseWriter
unfolding write_header
finish dw = if not dw.wrote_header then write_header 200 dw else dw

-- tkn.serve(serveCtx, dw)
unfoldable pub run_source :
    Source → DeferredResponseWriter → Option StreamError × DeferredResponseWriter
unfolding write_deferred
run_source (done e) dw = (e, dw)
run_source (write p next) dw = run_source (next (write_deferred p dw).0) (write_deferred p dw).1

-- The headers that the handler set, what was sent, and the error whose text http.Error sends.
pub record Response : Type 0 where
  pub disposition : Bytes
  pub content_length : Option Bytes
  pub wire : Wire
  pub error : Option StreamError

pub data GetResponse : Type 0 where
  method_not_allowed not_found invalid_endpoint : GetResponse
  streamed : Response → GetResponse

abbrev pub error_code : StreamError → ℕ
error_code e = if is_download_too_large e then 413 else 500

-- if tkn.size > 0 { Content-Length }
abbrev pub length_header : ℤ → Option ℕ
length_header (pos zero) = none
length_header (pos (suc n)) = some (suc n)
length_header (negsuc n) = none

abbrev pub header_text : Option ℕ → Option Bytes
header_text none = none
header_text (some n) = some (itoa (pos n))

-- The end of `getHandler` after its stream.
unfoldable pub end_stream : Option StreamError → DeferredResponseWriter → Wire × Option StreamError
unfolding finish is_download_too_large error_text http_error
end_stream none dw = ((finish dw).response_writer, none)
end_stream (some e) dw =
    if dw.wrote_header
    then (dw.response_writer, none)
    else (http_error (error_text e) (error_code e) dw.response_writer, some e)

-- `getHandler` after its claim, on a connection that takes `room` bytes.
unfoldable pub serve_claimed : ℕ → DownloadToken → Response
unfolding run_source end_stream
serve_claimed room t =
    let (e, dw) = run_source (t.serve t.jwt) (record {
      response_writer = fresh_wire (length_header t.size) room;
      wrote_header = false;
      status = 0;
    }) in
    let (w, error) = end_stream e dw in
    record {
      disposition = sanitize_filename t.name;
      content_length = header_text w.declared;
      wire = w;
      error = error;
    }

-- `token` is the path after /download/. Other requests may run while the bytes stream: `meanwhile` is
-- what they do to the coordinator.
unfoldable pub get_handler :
    Bool → ℕ → String → ℕ → (Download → Download) → Download → GetResponse × Download
unfolding claim serve_claimed release
get_handler false now token room meanwhile hd = (method_not_allowed, hd)
get_handler true now token room meanwhile hd =
    if str_eq token ""
    then (not_found, hd)
    else (let (c, hd') = claim now token hd in
        elim c [
          | none ↦ (invalid_endpoint, hd')
          | some t ↦
              (let hd'' : Download = meanwhile hd' in
                (
                  streamed (serve_claimed room t),
                  record hd'' { released = release t hd''.released },
                ))
        ])
