-- ===== src/Transfer/Download/Capped.antt =====
-- A download whose bytes go through the capped writer.
use mcpplane.Common.{
  ◌⊎◌, Option, sym, ℕ, zero, suc, ◌+◌, ◌-◌, ◌≡◌, ◌≤◌, ◌<◌, refl, ap, ◌∙◌, none, some, [], ◌∷◌, ◌++◌,
  leb, if◌then◌else◌, length, Bytes, take, pos, arith, Bool-cases, inl, inr, length-append,
}
use mcpplane.Transfer.Writers.{
  StreamError, error_text, too_large, failure, Source, done, write, exceeds, size_limited,
}
use mcpplane.Transfer.Writers.Caps.{within}
use mcpplane.Transfer.Download.{DownloadToken, Response, is_surplus, length_header, serve_claimed}
use mcpplane.Transfer.Download.Sending.{sent}
use mcpplane.Transfer.Download.Answers.{over_cap, failed, empty, streamed, serve_claimed_lem}

length-take : (n : ℕ) (s : Bytes) → n ≤ length s → length (take n s) ≡ n
length-take zero s h = refl
length-take (suc n) [] h = absurd (omega arith)
length-take (suc n) (c ∷ s) h = omega (arith, length-take n s)

-- The capped writer lets no more bytes through than are left below its cap.
sent_le :
    (declared : Option ℕ) (max_bytes asked written room : ℕ) (src : Source)
    → 0 < max_bytes
    → written ≤ max_bytes
    → written + length (sent declared asked room (size_limited (pos max_bytes) written src))
      ≤ max_bytes
unfolding sent size_limited
sent_le declared max_bytes asked written room (done e) m h = omega arith
sent_le declared max_bytes asked written room (write p next) m h =
    elim (Bool-cases (exceeds (pos max_bytes) (written + length p))) [
      | inl e ↦
          rw (e, if◌then◌else◌)
            (sent_le declared max_bytes asked written room
              (next (0, some (too_large (pos max_bytes)))) m h)
      | inr e ↦
          let l : written + length p ≤ max_bytes = within max_bytes (written + length p) m e in
          rw (e, if◌then◌else◌)
            (elim (Bool-cases (is_surplus (length p) declared asked)) [
              | inl f ↦
                  let r =
                    sent_le declared max_bytes (asked + length p) (written + 0) room
                      (next (0, some (failure "wrote too much"))) m (omega arith) in
                  rw (f, if◌then◌else◌) (omega arith)
              | inr f ↦ elim (Bool-cases (leb (length p) room)) [
                | inl g ↦
                    let r =
                      sent_le declared max_bytes (asked + length p) (written + length p)
                        (room - length p) (next (length p, none)) m l in
                    rw (f, g, if◌then◌else◌) (omega (arith, length-append {0}))
                | inr g ↦
                    let s : room ≤ length p = ground arith in
                    let r =
                      sent_le declared max_bytes (asked + length p) (written + room) 0
                        (next (room, some (failure "broken connection"))) m (omega arith) in
                    rw (f, g, if◌then◌else◌)
                      (omega (arith, length-append {0}, length-take room p s))
              ]
            ])
    ]

-- A response carries bytes of its stream within the cap, or an error page, which carries none.
abbrev pub IsCapped : ℕ → ℕ → Response → Type 0
IsCapped max_bytes room r =
    (length r.wire.body ≤ max_bytes)
    ⊎ ((e : StreamError) × (r.error ≡ some e) × (r.wire.body ≡ take room (error_text e ++ 10 ∷ [])))

-- A download whose source writes through the capped writer, with a positive cap, sends no more
-- bytes of its stream than the cap, on any connection and whatever the source does about errors:
-- its body is within the cap, or it is the text of the error that is reported and a line feed, as
-- far as the connection takes them.
pub serve_claimed-size_limited :
    (max_bytes room : ℕ) (t : DownloadToken) (src : Source)
    → 0 < max_bytes
    → t.serve t.jwt ≡ size_limited (pos max_bytes) 0 src
    → IsCapped max_bytes room (serve_claimed room t)
serve_claimed-size_limited max_bytes room t src m q = elim (serve_claimed_lem room t) [
  | over_cap e h c p ↦ inr (e, p.reported, p.text)
  | failed e h c p ↦ inr (e, p.reported, p.text)
  | empty h s ↦ inl (let b = ap length s.bytes in omega arith)
  | streamed p next h s ↦ inl (
      let b = ap length (s.bytes ∙ ap (sent (length_header t.size) 0 room) (sym h ∙ q)) in
      omega (arith, sent_le (length_header t.size) max_bytes 0 0 room src m (omega arith)))
]
