-- ===== src/Session/RequestState/Integrity.antt =====
-- What the request state guarantees: a string that verifies is signed under the key, and a minted
-- string verifies to its payload exactly until it lapses.
use mcpplane.Common.{
  ℕ, suc, ◌+◌, ◌/◌, ◌≤◌, ◌≡◌, ◌≢◌, refl, ◌∙◌, false, none, some, [], ◌∷◌, ◌++◌, ltb, if◌then◌else◌,
  length, second, arith, Option-cases, inl, inr, Bytes, drop, bytes_eq_self,
}
use mathlib.Core.Path.{subst}
use native.Mathlib.Numerals.{add-one}
use mcpplane.Session.RequestState.{
  Envelope, Codec, last_index_byte, request_state_prefix, request_state_ttl, sign_request_state,
  mint_request_state, must_b64, open_body, verify_at, verify_request_state,
}
use mcpplane.Session.RequestState.Slices.{
  NoByte, take-append, last_index_byte-append, drop-suc-append, bytes_eq-nil, drop-suc-append,
  has_prefix-append,
}

module _ (c : Codec) where
  open c use {encode, decode, hmac, marshal, unmarshal}

  -- The parts of a string that verifies.
  pub record IsSealed (key state p : Bytes) (now : ℕ) : Type 0 where
    pub body : Bytes
    pub mac : Bytes
    pub env : Envelope
    pub shape : state ≡ request_state_prefix ++ (body ++ b'.' ∷ mac)
    pub signed : decode mac ≡ some (sign_request_state c key body)
    pub opened : unmarshal (must_b64 c body) ≡ some env
    pub payload : env.p ≡ p
    pub fresh : now / second ≤ env.exp
    pub nonempty : p ≢ []

-- What the documentation of base64 and JSON promises: decoding undoes encoding, base64url has no
-- dot, and JSON round-trips an envelope whose string is valid text.
pub record CodecLaws (c : Codec) (IsText : Bytes → Type 0) : Type 0 where
  pub decode-encode : (b : Bytes) → c.decode (c.encode b) ≡ some b
  pub encode-NoByte : (b : Bytes) → NoByte b'.' (c.encode b)
  pub unmarshal-marshal :
      (e : Envelope) (b : Bytes) → IsText e.p → c.marshal e ≡ some b → c.unmarshal b ≡ some e

module _ (c : Codec) (IsText : Bytes → Type 0) (laws : CodecLaws c IsText) where
  open c use {encode, decode, marshal, unmarshal}
  open laws use {decode-encode, encode-NoByte, unmarshal-marshal}

  -- The dot between the body and the MAC is the last one.
  last_dot :
      (body mac : Bytes)
      → NoByte b'.' mac
      → last_index_byte (request_state_prefix ++ (body ++ b'.' ∷ mac)) b'.'
        ≡ some (length (request_state_prefix ++ body))
  last_dot body mac h = last_index_byte-append (request_state_prefix ++ body) mac b'.' h

  verify_at-parts :
      (key body mac : Bytes) (now : ℕ)
      → decode mac ≡ some (sign_request_state c key body)
      → verify_at c key
          (request_state_prefix ++ (body ++ b'.' ∷ mac))
          (length (request_state_prefix ++ body))
          now
        ≡ open_body c body now
  unfolding verify_at
  verify_at-parts key body mac now h =
      let d : ℕ = suc (suc (suc (length body))) in
      let after : drop (d + 1) (request_state_prefix ++ (body ++ b'.' ∷ mac)) ≡ mac =
        rw (add-one d) (drop-suc-append body mac b'.') in
      rw (after, verify_at)
        (rw (h, verify_at) (rw (take-append body (b'.' ∷ mac), bytes_eq_self) refl))

  verify-parts :
      (key body mac : Bytes) (now : ℕ)
      → NoByte b'.' mac
      → decode mac ≡ some (sign_request_state c key body)
      → verify_request_state c key (request_state_prefix ++ (body ++ b'.' ∷ mac)) now
        ≡ open_body c body now
  unfolding verify_request_state
  verify-parts key body mac now clean h =
      let wire : Bytes = request_state_prefix ++ (body ++ b'.' ∷ mac) in
      let long : ltb (length (request_state_prefix ++ body)) 3 ≡ false = ground arith in
      rw (has_prefix-append (body ++ b'.' ∷ mac))
        (rw (last_dot body mac clean) (rw long (verify_at-parts key body mac now h)))

  open_body-encode :
      (env payload : Bytes) (exp later : ℕ)
      → unmarshal env ≡ some (record { p = payload; exp = exp })
      → payload ≢ []
      → open_body c (encode env) later ≡ (if ltb exp (later / second) then none else some payload)
  unfolding open_body
  open_body-encode env payload exp later u ne =
      ground (arith, decode-encode env, u, bytes_eq-nil payload ne)

  -- A minted string verifies to its payload up to and including the second in which it lapses, and
  -- is refused after that, for a payload that is not empty and is valid text.
  pub verify-mint :
      (key payload wire : Bytes) (now later : ℕ)
      → IsText payload
      → payload ≢ []
      → mint_request_state c key payload now ≡ some wire
      → verify_request_state c key wire later
        ≡ (if ltb ((now + request_state_ttl) / second) (later / second) then none else some payload)
  unfolding mint_request_state
  verify-mint key payload wire now later text ne h =
      let e : Envelope = record { p = payload; exp = (now + request_state_ttl) / second } in
      elim (Option-cases (marshal e)) [
        | inl q ↦ absurd (ground arith)
        | inr (env, q) ↦
            let body : Bytes = encode env in
            let mac : Bytes = encode (sign_request_state c key body) in
            let shape : request_state_prefix ++ (body ++ b'.' ∷ mac) ≡ wire = ground arith in
            subst
              (λ w.
                verify_request_state c key w later
                ≡ (if ltb e.exp (later / second) then none else some payload))
              shape
              (verify-parts key body mac later (encode-NoByte _) (decode-encode _)
                ∙ open_body-encode env payload e.exp later (unmarshal-marshal e env text q) ne)
      ]
