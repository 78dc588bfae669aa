-- ===== src/Session/RequestState.antt =====
-- session/request_state.go: the signed wire string that carries a session id through the client.
-- Strings are lists of bytes. base64, HMAC-SHA256 and the JSON codec are the interface `Codec`:
-- their operations as the code uses them, and the laws of their documentation. An instant is in
-- nanoseconds, `exp` in seconds, as in Go.
pub mod Slices
pub mod Integrity
use mcpplane.Common.{
  ℕ, zero, suc, ◌+◌, ◌-◌, ◌*◌, ◌/◌, ◌≡◌, ◌≢◌, refl, Bool, true, false, ◌&&◌, Option, none, some,
  List, [], ◌∷◌, ◌++◌, ltb, leb, ◌==◌, if◌then◌else◌, length, minute, second, Bytes, bytes_eq, take,
  drop, ◌↔◌, ◌≤◌, arith,
}

-- "v1."
abbrev pub request_state_prefix : Bytes
request_state_prefix = b'v' ∷ b'1' ∷ b'.' ∷ []

-- requestStateTTL
abbrev pub request_state_ttl : ℕ
request_state_ttl = 35 * minute

-- The fields p and exp of the JSON envelope.
pub record Envelope : Type 0 where
  pub p : Bytes
  pub exp : ℕ

-- What the code uses of encoding/base64 (RawURLEncoding), crypto/hmac and encoding/json. The laws
-- say that decoding undoes encoding and that base64url has no dot.
pub record Codec : Type 0 where
  pub encode : Bytes → Bytes
  pub decode : Bytes → Option Bytes
  pub hmac : Bytes → Bytes → Bytes
  pub marshal : Envelope → Option Bytes
  pub unmarshal : Bytes → Option Envelope

unfoldable pub has_prefix : Bytes → Bytes → Bool
has_prefix s p = leb (length p) (length s) && bytes_eq (take (length p) s) p

-- The loop of `lastIndexByte` from index `n - 1` down; `none` is -1.
unfoldable pub last_index_from : ℕ → Bytes → ℕ → Option ℕ
last_index_from zero s b = none
last_index_from (suc i) s b =
    let rest = last_index_from i s b in
    if bytes_eq (take 1 (drop i s)) (b ∷ []) then some i else rest

unfoldable pub last_index_byte : Bytes → ℕ → Option ℕ
unfolding last_index_from
last_index_byte s b = last_index_from (length s) s b

module _ (c : Codec) where
  open c use {encode, decode, hmac, marshal, unmarshal}

  unfoldable pub sign_request_state : Bytes → Bytes → Bytes
  sign_request_state key body = hmac key (request_state_prefix ++ body)

  unfoldable pub mint_request_state : Bytes → Bytes → ℕ → Option Bytes
  unfolding sign_request_state
  mint_request_state key payload now =
      elim (marshal (record { p = payload; exp = (now + request_state_ttl) / second })) [
        | none ↦ none
        | some env ↦ some (
            request_state_prefix
            ++ (encode env ++ (b'.' ∷ encode (sign_request_state key (encode env)))))
      ]

  -- A body that does not decode is the nil slice.
  abbrev pub must_b64 : Bytes → Bytes
  must_b64 body = elim (decode body) [ none ↦ [] | some b ↦ b ]

  -- What follows once the MAC is known to fit.
  unfoldable pub open_body : Bytes → ℕ → Option Bytes
  open_body body now = elim (unmarshal (must_b64 body)) [
    | none ↦ none
    | some env ↦
        if bytes_eq env.p [] then none else if ltb env.exp (now / second) then none else some env.p
  ]

  unfoldable pub verify_at : Bytes → Bytes → ℕ → ℕ → Option Bytes
  unfolding sign_request_state open_body
  verify_at key state dot now =
      let body : Bytes = drop 3 (take dot state) in
      elim (decode (drop (dot + 1) state)) [
        | none ↦ none
        | some mac ↦ if bytes_eq mac (sign_request_state key body) then open_body body now else none
      ]

  -- Every refusal is the one error, so `none`.
  unfoldable pub verify_request_state : Bytes → Bytes → ℕ → Option Bytes
  unfolding has_prefix last_index_byte verify_at
  verify_request_state key state now =
      if has_prefix state request_state_prefix
      then elim (last_index_byte state b'.') [
        | none ↦ none
        | some dot ↦ if ltb dot 3 then none else verify_at key state dot now
      ]
      else none
