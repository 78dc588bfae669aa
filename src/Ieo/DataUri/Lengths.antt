-- ===== src/Ieo/DataUri/Lengths.antt =====
-- The decoded length of a base64 payload, against the encoding of RFC 4648.
use mcpplane.Common.{
  ℕ, zero, suc, ◌+◌, ◌-◌, ◌*◌, ◌/◌, ◌%◌, ◌≡◌, refl, sym, ap, ◌∙◌, false, [], ◌∷◌, ◌++◌,
  if◌then◌else◌, length, length-append, Bytes, has_byte, has_byte-reverse, pos, arith, Bool-cases,
  inl, inr,
}
use mathlib.Core.List.{reverse, reverse-append, reverse-cons, append-nil}
use mcpplane.Ieo.DataUri.{is_newline, count_encoded, count_padding, base64_decoded_len}

-- The text without its line breaks.
unfoldable pub unwrap : Bytes → Bytes
unwrap [] = []
unwrap (c ∷ s) = if is_newline c then unwrap s else c ∷ unwrap s

unfoldable pub pads : ℕ → Bytes
pads zero = []
pads (suc p) = b'=' ∷ pads p

-- A text, perhaps with line breaks, of the form of the base64 encoding of m bytes: four characters for
-- each three bytes or part of them, the last ones padding.
pub record Encodes (m : ℕ) (s : Bytes) : Type 0 where
  pub body : Bytes
  pub padding : ℕ
  pub shape : unwrap s ≡ body ++ pads padding
  pub no_pad : has_byte b'=' body ≡ false
  pub padded : padding ≡ (3 - m % 3) % 3
  pub groups : length body + padding ≡ 4 * ((m + 2) / 3)

pub count_encoded-unwrap : (s : Bytes) → count_encoded s ≡ length (unwrap s)
unfolding count_encoded unwrap
count_encoded-unwrap [] = refl
count_encoded-unwrap (c ∷ s) = ground (arith, count_encoded-unwrap s)

pub length-pads : (p : ℕ) → length (pads p) ≡ p
unfolding pads
length-pads zero = refl
length-pads (suc p) = omega (arith, length-pads p)

unwrap-append : (s t : Bytes) → unwrap (s ++ t) ≡ unwrap s ++ unwrap t
unfolding unwrap
unwrap-append [] t = refl
unwrap-append (c ∷ s) t = ground (arith, unwrap-append s t)

pub unwrap-reverse : (s : Bytes) → unwrap (reverse s) ≡ reverse (unwrap s)
unfolding unwrap
unwrap-reverse [] = refl
unwrap-reverse (c ∷ s) =
    ap unwrap (reverse-append (c ∷ []) s)
    ∙ unwrap-append (reverse s) (c ∷ [])
    ∙ elim (Bool-cases (is_newline c)) [
      | inl e ↦ rw (e, if◌then◌else◌) (append-nil (unwrap (reverse s)) ∙ unwrap-reverse s)
      | inr e ↦
          rw (e, if◌then◌else◌)
            (ap (λ (t : Bytes). t ++ c ∷ []) (unwrap-reverse s) ∙ sym (reverse-cons c (unwrap s)))
    ]

count_padding-unwrap : (s : Bytes) → count_padding (unwrap s) ≡ count_padding s
unfolding count_padding unwrap
count_padding-unwrap [] = refl
count_padding-unwrap (c ∷ s) = ground (arith, count_padding-unwrap s)

count_padding-pads : (p : ℕ) (s : Bytes) → count_padding (pads p ++ s) ≡ p + count_padding s
unfolding count_padding pads
count_padding-pads zero s = omega arith
count_padding-pads (suc p) s = omega (arith, count_padding-pads p s)

count_padding_none : (s : Bytes) → has_byte b'=' s ≡ false → count_padding s ≡ 0
unfolding count_padding has_byte
count_padding_none [] h = refl
count_padding_none (c ∷ s) h = ground (arith, count_padding_none s)

pads_snoc : (p : ℕ) → pads p ++ b'=' ∷ [] ≡ pads (suc p)
unfolding pads
pads_snoc zero = refl
pads_snoc (suc p) = ap (λ (t : Bytes). b'=' ∷ t) (pads_snoc p)

reverse-pads : (p : ℕ) → reverse (pads p) ≡ pads p
unfolding pads
reverse-pads zero = refl
reverse-pads (suc p) =
    reverse-cons b'=' (pads p) ∙ ap (λ (t : Bytes). t ++ b'=' ∷ []) (reverse-pads p) ∙ pads_snoc p

padding_of :
    (s body : Bytes) (p : ℕ)
    → unwrap s ≡ body ++ pads p
    → has_byte b'=' body ≡ false
    → count_padding (reverse s) ≡ p
padding_of s body p q h =
    let e : unwrap (reverse s) ≡ pads p ++ reverse body =
      unwrap-reverse s
      ∙ ap reverse q
      ∙ reverse-append body (pads p)
      ∙ ap (λ (t : Bytes). t ++ reverse body) (reverse-pads p) in
    let c = count_padding_none (reverse body) (has_byte-reverse b'=' body h) in
    sym (count_padding-unwrap (reverse s))
    ∙ ap count_padding e
    ∙ count_padding-pads p (reverse body)
    ∙ omega arith

-- The decoded length of a payload of the form of an encoding of m bytes, line breaks anywhere, is m.
pub base64_decoded_len-Encodes : (m : ℕ) (s : Bytes) → Encodes m s → base64_decoded_len s ≡ pos m
unfolding base64_decoded_len
base64_decoded_len-Encodes m s h =
    let n : count_encoded s ≡ 4 * ((m + 2) / 3) =
      count_encoded-unwrap s
      ∙ ap length h.shape
      ∙ length-append h.body (pads h.padding)
      ∙ omega (arith, length-pads h.padding, h.groups) in
    let k : count_padding (reverse s) ≡ (3 - m % 3) % 3 =
      padding_of s h.body h.padding h.shape h.no_pad ∙ h.padded in
    ground (arith, n, k)
