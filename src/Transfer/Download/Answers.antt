-- ===== src/Transfer/Download/Answers.antt =====
-- The answer to a download request that was let in.
use mcpplane.Common.{
  ℕ, ℤ, String, arith, zero, suc, ◌∷◌, ◌≡◌, refl, sym, ap, true, false, none, some, Option, [],
  ◌++◌, leb, if◌then◌else◌, length, Bytes, take, Bool-cases, inl, inr,
}
use mcpplane.Transfer.Writers.{
  StreamError, failure, too_large, wrapped, is_download_too_large, error_text, Source, done, write,
}
use mathlib.Core.Path.{subst}
use mcpplane.Transfer.Names.{sanitize_filename}
use mcpplane.Transfer.Download.{
  header_text, DownloadToken, Response, length_header, is_surplus, http_error, send, serve_claimed,
  error_code, Wire, fresh_wire, DeferredResponseWriter, write_deferred, run_source, error_code,
  end_stream, serve_claimed,
}
use mcpplane.Transfer.Download.Sending.{sent, ended, ended-committed}

-- An error that is, or wraps at any depth, the one for a download that is over the cap.
pub data IsOverCap : StreamError → Type 0 where
  itself : (cap_bytes : ℤ) → IsOverCap (too_large cap_bytes)
  wraps : (text : String) (e : StreamError) → IsOverCap e → IsOverCap (wrapped text e)

is_download_too_large-IsOverCap : (e : StreamError) → is_download_too_large e ≡ true → IsOverCap e
unfolding is_download_too_large
is_download_too_large-IsOverCap (too_large c) h = itself c
is_download_too_large-IsOverCap (failure text) h = absurd (ground arith)
is_download_too_large-IsOverCap (wrapped text e) h =
    wraps text e (is_download_too_large-IsOverCap e h)

IsOverCap-is_download_too_large : {e : StreamError} → IsOverCap e → is_download_too_large e ≡ true
unfolding is_download_too_large
IsOverCap-is_download_too_large (itself c) = refl
IsOverCap-is_download_too_large (wraps text e h) = IsOverCap-is_download_too_large h

-- What an error page has: its status, the error's text and a line feed, as far as the connection takes
-- them, no Content-Length of the handler's, and the error.
pub record Page (room code : ℕ) (e : StreamError) (r : Response) : Type 0 where
  pub status_ok : r.wire.status ≡ some code
  pub text : r.wire.body ≡ take room (error_text e ++ 10 ∷ [])
  pub no_length : r.content_length ≡ none
  pub reported : r.error ≡ some e

-- What a download has: the status 200, these bytes and no error.
pub record Sends (body : Bytes) (r : Response) : Type 0 where
  pub status_ok : r.wire.status ≡ some 200
  pub bytes : r.wire.body ≡ body
  pub no_error : r.error ≡ none

pub data Answered (room : ℕ) (t : DownloadToken) (r : Response) : Type 0 where
  over_cap :
      (e : StreamError)
      → t.serve t.jwt ≡ done (some e)
      → IsOverCap e
      → Page room 413 e r
      → Answered room t r
  failed :
      (e : StreamError)
      → t.serve t.jwt ≡ done (some e)
      → (IsOverCap e → ⊥)
      → Page room 500 e r
      → Answered room t r
  empty : t.serve t.jwt ≡ done none → Sends [] r → Answered room t r
  streamed :
      (p : Bytes) (next : ℕ × Option StreamError → Source)
      → t.serve t.jwt ≡ write p next
      → Sends (sent (length_header t.size) 0 room (write p next)) r
      → Answered room t r

no_surplus : (n written : ℕ) → is_surplus n none written ≡ false
no_surplus zero written = refl
no_surplus (suc n) written = refl

take_all : (n : ℕ) (s : Bytes) → leb (length s) n ≡ true → take n s ≡ s
take_all zero [] h = refl
take_all (suc n) [] h = refl
take_all zero (c ∷ s) h = absurd (ground arith)
take_all (suc n) (c ∷ s) h = ap (λ (t : Bytes). c ∷ t) (take_all n s (ground arith))

-- An error page over a wire on which nothing was sent.
record Reported (room code : ℕ) (line : Bytes) (w : Wire) : Type 0 where
  status_ok : w.status ≡ some code
  bytes : w.body ≡ take room line
  undeclared : w.declared ≡ none

abbrev headed : ℕ → ℕ → Wire
headed room code = record {
  declared = none;
  status = some code;
  body = [];
  room = room;
  written = 0;
}

send-Reported :
    (room code : ℕ) (line : Bytes) → Reported room code line (send line (headed room code)).1
unfolding send
send-Reported room code line = elim (Bool-cases (leb (length line) room)) [
  | inl e ↦ record {
    status_ok = rw (no_surplus (length line) 0, e, send) refl;
    bytes = rw (no_surplus (length line) 0, e, send) (sym (take_all room line e));
    undeclared = rw (no_surplus (length line) 0, e, send) refl;
  }
  | inr e ↦ record {
    status_ok = rw (no_surplus (length line) 0, e, send) refl;
    bytes = rw (no_surplus (length line) 0, e, send) refl;
    undeclared = rw (no_surplus (length line) 0, e, send) refl;
  }
]

http_error-Reported :
    (declared : Option ℕ) (room code : ℕ) (text : Bytes)
    → Reported room code (text ++ 10 ∷ []) (http_error text code (fresh_wire declared room))
unfolding http_error
http_error-Reported declared room code text = send-Reported room code (text ++ 10 ∷ [])

abbrev untouched : ℕ → DownloadToken → DeferredResponseWriter
untouched room t = record {
  response_writer = fresh_wire (length_header t.size) room;
  wrote_header = false;
  status = 0;
}

-- The response of a token whose stream is this one.
abbrev response_of : ℕ → DownloadToken → Source → Response
response_of room t src =
    let r = ended src (untouched room t) in
    record {
      disposition = sanitize_filename t.name;
      content_length = header_text r.0.declared;
      wire = r.0;
      error = r.1;
    }

failed-Page :
    (room : ℕ) (t : DownloadToken) (e : StreamError)
    → Page room (error_code e) e (response_of room t (done (some e)))
unfolding run_source end_stream
failed-Page room t e =
    let p = http_error-Reported (length_header t.size) room (error_code e) (error_text e) in
    record {
      status_ok = p.status_ok;
      text = p.bytes;
      no_length = ap header_text p.undeclared;
      reported = refl;
    }

failed-Answered :
    (room : ℕ) (t : DownloadToken) (e : StreamError)
    → t.serve t.jwt ≡ done (some e)
    → Answered room t (response_of room t (done (some e)))
failed-Answered room t e q = elim (Bool-cases (is_download_too_large e)) [
  | inl b ↦ over_cap e q (is_download_too_large-IsOverCap e b) (
      subst (λ c. Page room c e (response_of room t (done (some e)))) (rw (b, if◌then◌else◌))
        (failed-Page room t e))
  | inr b ↦
      failed e q (λ c. (let k = IsOverCap-is_download_too_large c in absurd (ground arith)))
        (subst (λ c. Page room c e (response_of room t (done (some e)))) (rw (b, if◌then◌else◌))
          (failed-Page room t e))
]

write-Sends :
    (room : ℕ) (t : DownloadToken) (p : Bytes) (next : ℕ × Option StreamError → Source)
    → Sends (sent (length_header t.size) 0 room (write p next)) (response_of room t (write p next))
unfolding run_source write_deferred
write-Sends room t p next =
    let s = ended-committed (length_header t.size) (write p next) [] 0 room in
    record { status_ok = s.status_ok; bytes = s.bytes; no_error = s.no_error }

response_of-Answered :
    (room : ℕ) (t : DownloadToken) (src : Source)
    → t.serve t.jwt ≡ src
    → Answered room t (response_of room t src)
unfolding run_source end_stream
response_of-Answered room t (done none) q =
    empty q (record { status_ok = refl; bytes = refl; no_error = refl })
response_of-Answered room t (done (some e)) q = failed-Answered room t e q
response_of-Answered room t (write p next) q = streamed p next q (write-Sends room t p next)

-- A download that was let in and whose stream fails before its first write is answered with 413
-- if the error is or wraps that of the cap and with 500 otherwise, with the error's text and a
-- line feed as far as the connection takes them, and without a Content-Length; any other is
-- answered with 200, no reported error, and the bytes that its stream sends over the connection,
-- none if it ends without a write.
pub serve_claimed_lem : (room : ℕ) (t : DownloadToken) → Answered room t (serve_claimed room t)
unfolding serve_claimed
serve_claimed_lem room t = response_of-Answered room t (t.serve t.jwt) refl
