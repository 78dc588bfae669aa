-- ===== src/Ieo/DataUri/Sizes.antt =====
-- The size that is computed for a payload, against the payload's characters and its padding, and the
-- base64 mark of the metadata.
use mcpplane.Common.{
  ℕ, zero, suc, ◌+◌, ◌*◌, ◌/◌, ◌≡◌, ◌≢◌, ◌≤◌, ◌⊎◌, inl, inr, refl, sym, ap, ◌∙◌, Bool, true, false,
  List, [], ◌∷◌, ◌++◌, ◌==◌, if◌then◌else◌, length, Bytes, codes, bytes_eq, bytes_eq→≡, trim_space,
  ℤ, pos, negsuc, arith, Bool-cases, length-append,
}
use mathlib.Core.List.{reverse, reverse-cons, reverse-append, reverse-reverse}
use mathlib.Core.Path.{subst}
use mcpplane.Ieo.DataUri.Lengths.{unwrap, pads, length-pads, count_encoded-unwrap, unwrap-reverse}
use mcpplane.Ieo.DataUri.{
  FileDataUriOption, count_padding, minus, base64_decoded_len, is_newline, split_on, read_part,
  read_parts, read_meta, no_option,
}

-- The characters of a payload other than line feeds and carriage returns.
pub stripped : Bytes → Bytes
stripped [] = []
stripped (c ∷ s) = if c == 10 then stripped s else if c == 13 then stripped s else c ∷ stripped s

-- A text that does not end in '='.
pub data Unpadded : Bytes → Type 0 where
  empty : Unpadded []
  ended : (s : Bytes) (c : ℕ) → c ≢ b'=' → Unpadded (s ++ c ∷ [])

-- z is a - b.
abbrev pub IsDifference : ℤ → ℕ → ℕ → Type 0
IsDifference (pos n) a b = a ≡ b + n
IsDifference (negsuc n) a b = b ≡ a + suc n

-- The size of a payload: three bytes for every four characters, less the padding.
pub record HasSize (payload : Bytes) (size : ℤ) : Type 0 where
  pub text : Bytes
  pub padding : ℕ
  pub shape : stripped payload ≡ text ++ pads padding
  pub unpadded : Unpadded text
  pub counted : IsDifference size (length (stripped payload) / 4 * 3) padding

stripped-unwrap : (s : Bytes) → stripped s ≡ unwrap s
unfolding stripped unwrap
stripped-unwrap [] = refl
stripped-unwrap (c ∷ s) = ground (arith, stripped-unwrap s)

-- A text from its last byte on: the padding, then a byte that is none.
data Starts : Bytes → Type 0 where
  nothing : Starts []
  other : (c : ℕ) (s : Bytes) → c ≢ b'=' → Starts (c ∷ s)

record Counted (s : Bytes) : Type 0 where
  rest : Bytes
  split : stripped s ≡ pads (count_padding s) ++ rest
  starts : Starts rest

count_padding-Counted : (s : Bytes) → Counted s
unfolding count_padding stripped pads
count_padding-Counted [] = record { rest = []; split = refl; starts = nothing }
count_padding-Counted (c ∷ s) =
    let r = count_padding-Counted s in
    elim (Bool-cases (is_newline c)) [
      | inl e ↦ record { rest = r.rest; split = ground (arith, r.split); starts = r.starts }
      | inr e ↦ elim (Bool-cases (c == b'=')) [
        | inl f ↦ record { rest = r.rest; split = ground (arith, r.split); starts = r.starts }
        | inr f ↦ record {
          rest = c ∷ stripped s;
          split = ground arith;
          starts = other c (stripped s) (ground arith);
        }
      ]
    ]

pads-snoc : (k : ℕ) → pads k ++ b'=' ∷ [] ≡ b'=' ∷ pads k
unfolding pads
pads-snoc zero = refl
pads-snoc (suc k) = ap (λ (t : Bytes). b'=' ∷ t) (pads-snoc k)

reverse-pads : (k : ℕ) → reverse (pads k) ≡ pads k
unfolding pads
reverse-pads zero = refl
reverse-pads (suc k) =
    reverse-cons b'=' (pads k) ∙ ap (λ (t : Bytes). t ++ b'=' ∷ []) (reverse-pads k) ∙ pads-snoc k

Starts-reverse : {s : Bytes} → Starts s → Unpadded (reverse s)
Starts-reverse nothing = empty
Starts-reverse (other c s n) = subst Unpadded (sym (reverse-cons c s)) (ended (reverse s) c n)

-- The padding of a payload and the text before it.
split_padding :
    (payload : Bytes) (c : Counted (reverse payload))
    → stripped payload ≡ reverse c.rest ++ pads (count_padding (reverse payload))
split_padding payload c =
    let k = count_padding (reverse payload) in
    let e : reverse (stripped payload) ≡ pads k ++ c.rest =
      ap reverse (stripped-unwrap payload)
      ∙ sym (unwrap-reverse payload)
      ∙ sym (stripped-unwrap (reverse payload))
      ∙ c.split in
    sym (reverse-reverse (stripped payload))
    ∙ ap reverse e
    ∙ reverse-append (pads k) c.rest
    ∙ ap (λ (t : Bytes). reverse c.rest ++ t) (reverse-pads k)

minus-IsDifference : (a b : ℕ) → IsDifference (minus a b) a b
minus-IsDifference a b = ground arith

length-zero : (s : Bytes) → length s ≡ 0 → s ≡ []
length-zero [] h = refl
length-zero (c ∷ s) h = absurd (omega arith)

base64_decoded_len-IsDifference :
    (payload : Bytes)
    → count_padding (reverse payload) ≤ length (stripped payload)
    → IsDifference
        (base64_decoded_len payload)
        (length (stripped payload) / 4 * 3)
        (count_padding (reverse payload))
unfolding base64_decoded_len
base64_decoded_len-IsDifference payload h =
    let n = count_encoded-unwrap payload ∙ ap length (sym (stripped-unwrap payload)) in
    ground (
      arith,
      n,
      minus-IsDifference (length (stripped payload) / 4 * 3) (count_padding (reverse payload)),
    )

pub base64_decoded_len-HasSize : (payload : Bytes) → HasSize payload (base64_decoded_len payload)
base64_decoded_len-HasSize payload =
    let c = count_padding-Counted (reverse payload) in
    let k = count_padding (reverse payload) in
    let e = split_padding payload c in
    record {
      text = reverse c.rest;
      padding = k;
      shape = e;
      unpadded = Starts-reverse c.starts;
      counted = base64_decoded_len-IsDifference payload (
          let l = ap length e in
          omega (arith, length-append (reverse c.rest) (pads k), length-pads k));
    }

-- The parts that a read may set the mark by.
pub data SomePart : List Bytes → Type 0 where
  here :
      (part : Bytes) (parts : List Bytes)
      → trim_space part ≡ codes "base64"
      → SomePart (part ∷ parts)
  there : (part : Bytes) (parts : List Bytes) → SomePart parts → SomePart (part ∷ parts)

read_part-mark :
    (part : Bytes) (opt : FileDataUriOption) (b : Bool)
    → (read_part part (opt, b)).1 ≡ true
    → (b ≡ true) ⊎ (part ≡ codes "base64")
unfolding read_part
read_part-mark part opt b h = elim (Bool-cases (bytes_eq part (codes "base64"))) [
  | inl e ↦ inr (bytes_eq→≡ part (codes "base64") e)
  | inr e ↦ inl (ground arith)
]

read_parts-SomePart :
    (parts : List Bytes) (acc : FileDataUriOption × Bool)
    → (read_parts parts acc).1 ≡ true
    → (acc.1 ≡ true) ⊎ SomePart parts
unfolding read_parts
read_parts-SomePart [] acc h = inl h
read_parts-SomePart (part ∷ parts) (opt, b) h =
    elim (read_parts-SomePart parts (read_part (trim_space part) (opt, b)) h) [
      | inr m ↦ inr (there part parts m)
      | inl e ↦ elim (read_part-mark (trim_space part) opt b e) [
        | inl q ↦ inl q
        | inr q ↦ inr (here part parts q)
      ]
    ]

pub read_meta-SomePart : (meta : Bytes) → (read_meta meta).1 ≡ true → SomePart (split_on b';' meta)
unfolding read_meta
read_meta-SomePart [] h = absurd (ground arith)
read_meta-SomePart (c ∷ s) h =
    elim (read_parts-SomePart (split_on b';' (c ∷ s)) (no_option, false) h) [
      | inl e ↦ absurd (ground arith)
      | inr m ↦ m
    ]
