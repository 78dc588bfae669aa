-- ===== src/Sdk/Redaction/Headers.antt =====
-- Which headers are redacted, and what is left of them.
use mcpplane.Common.{
  ℕ, ◌+◌, ◌≡◌, refl, sym, ap, ◌∙◌, Bool, true, false, ◌&&◌, List, [], ◌∷◌, if◌then◌else◌, Bytes,
  codes, bytes_eq, bytes_eq→≡, to_lower, leb, ◌==◌, arith, length, Bool-cases, inl, inr, All,
}
use mathlib.Core.Path.{ap₂}
use mcpplane.Sdk.Redaction.{
  redacted_placeholder, is_token_byte, all_bytes, recase, recase_name, canonical_header_key,
  is_sensitive_header, Header, redact_all, redact_entries,
}

lower : ℕ → ℕ
lower c = if leb 65 c && leb c 90 then c + 32 else c

recase-lower : (upper : Bool) (c : ℕ) → recase upper (lower c) ≡ recase upper c
unfolding lower
recase-lower true c = ground arith
recase-lower false c = ground arith

lower_dash : (c : ℕ) → (lower c == b'-') ≡ (c == b'-')
unfolding lower
lower_dash c = ground arith

is_token_byte-lower : (c : ℕ) → is_token_byte (lower c) ≡ is_token_byte c
unfolding lower is_token_byte
is_token_byte-lower c = ground arith

lower_idem : (c : ℕ) → lower (lower c) ≡ lower c
unfolding lower
lower_idem c = ground arith

to_lower_cons : (c : ℕ) (s : Bytes) → to_lower (c ∷ s) ≡ lower c ∷ to_lower s
unfolding to_lower lower
to_lower_cons c s = refl

to_lower_nil : to_lower [] ≡ []
unfolding to_lower
to_lower_nil = refl

to_lower_idem : (s : Bytes) → to_lower (to_lower s) ≡ to_lower s
to_lower_idem [] = ap to_lower to_lower_nil
to_lower_idem (c ∷ s) =
    ap to_lower (to_lower_cons c s)
    ∙ to_lower_cons (lower c) (to_lower s)
    ∙ ap₂ (λ a (t : Bytes). a ∷ t) (lower_idem c) (to_lower_idem s)
    ∙ sym (to_lower_cons c s)

recase_name-to_lower :
    (upper : Bool) (s : Bytes) → recase_name upper (to_lower s) ≡ recase_name upper s
unfolding recase_name
recase_name-to_lower upper [] = ap (recase_name upper) to_lower_nil
recase_name-to_lower upper (c ∷ s) =
    ap (recase_name upper) (to_lower_cons c s)
    ∙ ap₂ (λ a (t : Bytes). a ∷ t) (recase-lower upper c)
        (ap (λ b. recase_name b (to_lower s)) (lower_dash c) ∙ recase_name-to_lower (c == b'-') s)

all_bytes-to_lower : (s : Bytes) → all_bytes is_token_byte (to_lower s) ≡ all_bytes is_token_byte s
unfolding all_bytes
all_bytes-to_lower [] = ap (all_bytes is_token_byte) to_lower_nil
all_bytes-to_lower (c ∷ s) =
    ap (all_bytes is_token_byte) (to_lower_cons c s)
    ∙ ap₂ (λ a b. if a then b else false) (is_token_byte-lower c) (all_bytes-to_lower s)

-- The test of a canonical name against one whose bytes are all valid.
named-to_lower :
    (name t : Bytes)
    → all_bytes is_token_byte t ≡ true
    → bytes_eq (canonical_header_key (to_lower name)) t ≡ bytes_eq (canonical_header_key name) t
unfolding canonical_header_key
named-to_lower name t v =
    let l = all_bytes-to_lower name in
    elim (Bool-cases (all_bytes is_token_byte name)) [
      | inl e ↦ rw (l, e, if◌then◌else◌) (ap (λ s. bytes_eq s t) (recase_name-to_lower true name))
      | inr e ↦ rw (l, e, if◌then◌else◌) (differs (to_lower name) (l ∙ e) ∙ sym (differs name e))
    ]
  where
    differs : (s : Bytes) → all_bytes is_token_byte s ≡ false → bytes_eq s t ≡ false
    differs s e = elim (Bool-cases (bytes_eq s t)) [
      | inl q ↦ absurd (let r = ap (all_bytes is_token_byte) (bytes_eq→≡ s t q) in ground arith)
      | inr q ↦ q
    ]

-- Whether a header is redacted does not depend on the case of its name.
pub is_sensitive_header-to_lower :
    (name : Bytes) → is_sensitive_header (to_lower name) ≡ is_sensitive_header name
unfolding is_sensitive_header all_bytes is_token_byte
is_sensitive_header-to_lower name = rw (
  named-to_lower name (codes "Authorization") refl,
  named-to_lower name (codes "Cookie") refl,
  named-to_lower name (codes "Proxy-Authorization") refl,
  to_lower_idem name,
)

-- A copy of an entry with its name, and with its values if the name is not sensitive and as many
-- placeholders otherwise.
pub data Redacted : Header → Header → Type 0 where
  nothing : Redacted [] []
  shown :
      (name : Bytes) (values : List Bytes) (h h' : Header)
      → is_sensitive_header name ≡ false
      → Redacted h h'
      → Redacted ((name, values) ∷ h) ((name, values) ∷ h')
  hidden :
      (name : Bytes) (values values' : List Bytes) (h h' : Header)
      → is_sensitive_header name ≡ true
      → length values' ≡ length values
      → All (λ v. v ≡ redacted_placeholder) values'
      → Redacted h h'
      → Redacted ((name, values) ∷ h) ((name, values') ∷ h')

length-redact_all : (values : List Bytes) → length (redact_all values) ≡ length values
length-redact_all [] = refl
length-redact_all (v ∷ values) = omega (arith, length-redact_all values)

redact_all-placeholders :
    (values : List Bytes) → All (λ v. v ≡ redacted_placeholder) (redact_all values)
redact_all-placeholders [] = tt
redact_all-placeholders (v ∷ values) = (refl, redact_all-placeholders values)

-- The redaction of headers keeps every name and its number of values, keeps every value of a
-- header that is not sensitive, and puts the placeholder for every value of one that is.
pub redact_entries-Redacted : (h : Header) → Redacted h (redact_entries h)
unfolding redact_entries
redact_entries-Redacted [] = Redacted.nothing
redact_entries-Redacted ((name, values) ∷ h) = elim (Bool-cases (is_sensitive_header name)) [
  | inl e ↦
      rw (e, if◌then◌else◌)
        (Redacted.hidden name values (redact_all values) h (redact_entries h) e
          (length-redact_all values) (redact_all-placeholders values) (redact_entries-Redacted h))
  | inr e ↦
      rw (e, if◌then◌else◌)
        (Redacted.shown name values h (redact_entries h) e (redact_entries-Redacted h))
]
