-- ===== src/Session/Tests/Sealed.antt =====
-- A codec of simple functions with the promised laws, and request states under it, on which the
-- theorems on session/request_state.go are applied.
use mcpplane.Common.{
  ◌+◌, ◌-◌, ◌*◌, ◌/◌, ◌≡◌, refl, Option, none, some, [], ◌∷◌, ◌++◌, ltb, if◌then◌else◌, second,
  arith, Bytes,
}
use mcpplane.Session.RequestState.{
  Envelope, Codec, request_state_prefix, request_state_ttl, sign_request_state, mint_request_state,
  verify_request_state,
}
use mcpplane.Session.RequestState.Slices.{NoByte}
use mcpplane.Session.RequestState.Integrity.{CodecLaws, verify-mint}

-- Every byte moves behind the dot.
shift : Bytes → Bytes
shift [] = []
shift (b ∷ s) = (b + 47) ∷ shift s

unshift : Bytes → Bytes
unshift [] = []
unshift (b ∷ s) = (b - 47) ∷ unshift s

unmarshal_pair : Bytes → Option Envelope
unmarshal_pair [] = none
unmarshal_pair (e ∷ p) = some (record { p = p; exp = e })

abbrev shifting : Codec
shifting = record {
  encode = shift;
  decode = λ s. some (unshift s);
  hmac = λ key m. key ++ m;
  marshal = λ e. some (e.exp ∷ e.p);
  unmarshal = unmarshal_pair;
}

unshift-shift : (b : Bytes) → unshift (shift b) ≡ b
unfolding shift unshift
unshift-shift [] = refl
unshift-shift (b ∷ s) = ground (arith, unshift-shift s)

shift-NoByte : (b : Bytes) → NoByte b'.' (shift b)
unfolding shift
shift-NoByte [] = tt
shift-NoByte (b ∷ s) = (ground arith, shift-NoByte s)

AnyText : Bytes → Type 0
AnyText p = Unit

shifting-CodecLaws : CodecLaws shifting AnyText
unfolding unmarshal_pair
shifting-CodecLaws = record {
  decode-encode = λ b. ground (arith, unshift-shift b);
  encode-NoByte = shift-NoByte;
  unmarshal-marshal = λ e b t q. ground arith;
}

abbrev key : Bytes
key = 1 ∷ 2 ∷ []

abbrev payload : Bytes
payload = 65 ∷ 66 ∷ []

-- Minted at five seconds.
abbrev body : Bytes
body = shift (2105 ∷ payload)

abbrev wire : Bytes
wire = request_state_prefix ++ (body ++ (b'.' ∷ shift (sign_request_state shifting key body)))

verify-mint_example : verify_request_state shifting key wire (6 * second) ≡ (
    if ltb ((5 * second + request_state_ttl) / second) ((6 * second) / second)
    then none
    else some payload)
unfolding mint_request_state AnyText
verify-mint_example =
    verify-mint shifting AnyText shifting-CodecLaws key payload wire (5 * second) (6 * second) tt
      (λ e. ground arith) refl
