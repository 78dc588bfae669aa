-- ===== src/Sdk/Redaction.antt =====
-- sdk/capsbuilder.go: the redaction of a request's headers and of its token's claims. Texts are lists of
-- bytes, which are characters where they are ASCII. A Go map is a list of its entries.
pub mod Headers
use mcpplane.Common.{
  ℕ, suc, ◌+◌, ◌-◌, ◌≡◌, refl, Bool, true, false, ◌&&◌, ◌||◌, not, List, [], ◌∷◌, map, Option, none,
  some, ltb, leb, ◌==◌, if◌then◌else◌, length, Bytes, codes, bytes_eq, cut_prefix, is_some,
  to_lower,
}

abbrev pub redacted_placeholder : Bytes
redacted_placeholder = codes "[REDACTED]"

-- sensitivePrefixes
abbrev pub sensitive_prefixes : List Bytes
sensitive_prefixes = codes "x-forwarded-" ∷ []

abbrev pub is_upper : ℕ → Bool
is_upper c = leb 65 c && leb c 90

abbrev pub is_lower : ℕ → Bool
is_lower c = leb 97 c && leb c 122

abbrev pub is_decimal : ℕ → Bool
is_decimal c = leb 48 c && leb c 57

-- The bytes of a header name: letters, digits and !#$%&'*+-.^_`|~.
unfoldable pub is_token_byte : ℕ → Bool
is_token_byte c =
    is_upper c
    || is_lower c
    || is_decimal c
    || c == 33
    || leb 35 c && leb c 39
    || c == 42
    || c == 43
    || c == 45
    || c == 46
    || leb 94 c && leb c 96
    || c == 124
    || c == 126

unfoldable pub all_bytes : (ℕ → Bool) → Bytes → Bool
all_bytes p [] = true
all_bytes p (c ∷ s) = if p c then all_bytes p s else false

-- The case of a letter in a canonical name: upper at the start and after a dash.
abbrev pub recase : Bool → ℕ → ℕ
recase true c = if is_lower c then c - 32 else c
recase false c = if is_upper c then c + 32 else c

unfoldable pub recase_name : Bool → Bytes → Bytes
recase_name upper [] = []
recase_name upper (c ∷ s) = recase upper c ∷ recase_name (c == b'-') s

-- http.CanonicalHeaderKey
unfoldable pub canonical_header_key : Bytes → Bytes
unfolding all_bytes is_token_byte recase_name
canonical_header_key name = if all_bytes is_token_byte name then recase_name true name else name

unfoldable pub has_any_prefix : Bytes → List Bytes → Bool
has_any_prefix s [] = false
has_any_prefix s (p ∷ ps) = if is_some (cut_prefix p s) then true else has_any_prefix s ps

unfoldable pub is_sensitive_header : Bytes → Bool
unfolding canonical_header_key has_any_prefix
is_sensitive_header name =
    bytes_eq (canonical_header_key name) (codes "Authorization")
    || bytes_eq (canonical_header_key name) (codes "Cookie")
    || bytes_eq (canonical_header_key name) (codes "Proxy-Authorization")
    || has_any_prefix (to_lower name) sensitive_prefixes

abbrev pub Header : Type 0
Header = List (Bytes × List Bytes)

abbrev pub redact_all : List Bytes → List Bytes
redact_all values = map (λ v. redacted_placeholder) values

-- The loop of RedactSensitiveHeaders.
unfoldable pub redact_entries : Header → Header
unfolding is_sensitive_header
redact_entries [] = []
redact_entries ((name, values) ∷ h) =
    (name, if is_sensitive_header name then redact_all values else values) ∷ redact_entries h

-- A nil header is none.
unfoldable pub redact_sensitive_headers : Option Header → Option Header
unfolding redact_entries
redact_sensitive_headers none = none
redact_sensitive_headers (some h) = some (redact_entries h)

-- sensitiveTokenClaimFragments
abbrev pub sensitive_token_claim_fragments : List Bytes
sensitive_token_claim_fragments =
    codes "token"
    ∷ codes "secret"
    ∷ codes "password"
    ∷ codes "credential"
    ∷ codes "authorization"
    ∷ codes "jwt"
    ∷ codes "api_key"
    ∷ codes "apikey"
    ∷ codes "key"
    ∷ codes "signature"
    ∷ codes "signing"
    ∷ codes "cert"
    ∷ codes "hash"
    ∷ []

-- strings.Contains
unfoldable pub contains : Bytes → Bytes → Bool
contains t [] = bytes_eq t []
contains t (c ∷ s) = if is_some (cut_prefix t (c ∷ s)) then true else contains t s

unfoldable pub contains_any : Bytes → List Bytes → Bool
unfolding contains
contains_any s [] = false
contains_any s (t ∷ ts) = if contains t s then true else contains_any s ts

unfoldable pub is_sensitive_token_claim : Bytes → Bool
unfolding contains_any
is_sensitive_token_claim key = contains_any (to_lower key) sensitive_token_claim_fragments

unfoldable pub is_base64_url_rune : ℕ → Bool
is_base64_url_rune r =
    is_upper r || is_lower r || is_decimal r || r == b'-' || r == b'_' || r == b'='

-- strings.Count of ".".
unfoldable pub count_dots : Bytes → ℕ
count_dots [] = 0
count_dots (c ∷ s) = if c == b'.' then suc (count_dots s) else count_dots s

abbrev pub is_trimmed : ℕ → Bool
is_trimmed c = c == b'.' || c == b'_' || c == b'-'

-- Trim with that cutset leaves nothing exactly when all bytes are of the cutset.
unfoldable pub looks_like_credential : Bytes → Bool
unfolding count_dots all_bytes is_base64_url_rune
looks_like_credential s =
    if is_some (cut_prefix (codes "-----BEGIN") s)
    then true
    else if count_dots s == 2 && ltb 40 (length s) && not (all_bytes is_trimmed s)
    then all_bytes (λ r. r == b'.' || is_base64_url_rune r) s
    else leb 64 (length s) && all_bytes is_base64_url_rune s
