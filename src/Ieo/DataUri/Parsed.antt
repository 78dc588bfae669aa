-- ===== src/Ieo/DataUri/Parsed.antt =====
-- Which data: URIs are accepted, and with what size.
use mcpplane.Common.{
  ◌||◌, ℕ, ◌+◌, ◌*◌, ◌/◌, ◌≡◌, ◌≢◌, ◌≤◌, ◌<◌, sym, ap, ◌∙◌, true, false, some, [], ◌∷◌, ◌++◌, ltb,
  ◌==◌, length, Bytes, codes, cut_prefix, has_byte, cut_prefix-append, cut_prefix-append_self,
  int64_limit, ℤ, pos, negsuc, arith, Bool-cases, Option-cases, inl, inr,
}
use mcpplane.Ieo.DataUri.{
  FileDataUriOption, DataUriError, not_data_uri, no_comma, not_base64, encoded_too_large, rejected,
  parsed, split_on, cut_at, read_meta, base64_decoded_len, int_eq, int_gt, over_twice, check_size,
  parse_parts, parse_file_data_uri,
}
use mathlib.Core.Path.{subst}
use mcpplane.Ieo.DataUri.Sizes.{HasSize, SomePart, read_meta-SomePart, base64_decoded_len-HasSize}
use mcpplane.Ieo.DataUri.Lengths.{Encodes, base64_decoded_len-Encodes}

int_eq→≡ : (a b : ℤ) → int_eq a b ≡ true → a ≡ b
int_eq→≡ (pos a) (pos b) h = ground arith
int_eq→≡ (pos a) (negsuc b) h = cc
int_eq→≡ (negsuc a) (pos b) h = cc
int_eq→≡ (negsuc a) (negsuc b) h = ground arith

-- What the end of the parser checks.
record Checked (max_bytes : ℤ) (payload payload' : Bytes) (opt : FileDataUriOption) : Type 0 where
  same : payload ≡ payload'
  sized : opt.size ≡ base64_decoded_len payload
  within : int_gt opt.size max_bytes ≡ false

check_size-Checked :
    (max_bytes : ℤ) (payload payload' : Bytes) (opt opt' : FileDataUriOption)
    → check_size max_bytes payload opt ≡ parsed payload' opt'
    → Checked max_bytes payload payload' opt'
unfolding check_size
check_size-Checked max_bytes payload payload' opt opt' h =
    ground (arith, int_eq→≡ opt.size (base64_decoded_len payload))

cut_at-append : (b : ℕ) (s x y : Bytes) → cut_at b s ≡ some (x, y) → s ≡ x ++ b ∷ y
unfolding cut_at
cut_at-append b [] x y h = cc
cut_at-append b (c ∷ s) x y h = elim (Bool-cases (c == b)) [
  | inl e ↦ let k : some ([], s) ≡ some (x, y) = sym (rw (e, cut_at)) ∙ h in ground (arith, k)
  | inr e ↦ elim (Option-cases (cut_at b s)) [
    | inl f ↦ absurd (let k = rw (e, f, cut_at) at h in cc)
    | inr ((x', y'), f) ↦ let q = cut_at-append b s x' y' f in ground (arith, q)
  ]
]

cut_at-append_self :
    (b : ℕ) (x y : Bytes) → has_byte b x ≡ false → cut_at b (x ++ b ∷ y) ≡ some (x, y)
unfolding cut_at has_byte
cut_at-append_self b [] y h = ground arith
cut_at-append_self b (c ∷ x) y h = ground (arith, cut_at-append_self b x y)

abbrev pub AtMost : ℤ → ℤ → Type 0
AtMost (pos a) (pos b) = a ≤ b
AtMost (pos a) (negsuc b) = ⊥
AtMost (negsuc a) (pos b) = Unit
AtMost (negsuc a) (negsuc b) = b ≤ a

-- The parts of an accepted URI, and the size that is reported for it.
pub record IsAccepted (uri : Bytes) (max_bytes : ℤ) (payload : Bytes) (opt : FileDataUriOption)
    : Type 0 where
  pub meta : Bytes
  pub shape : uri ≡ codes "data:" ++ meta ++ b',' ∷ payload
  pub marked : SomePart (split_on b';' meta)
  pub sized : HasSize payload opt.size
  pub within : AtMost opt.size max_bytes

not_over : (a b : ℤ) → int_gt a b ≡ false → AtMost a b
not_over (pos a) (pos b) h = ground arith
not_over (pos a) (negsuc b) h = ground arith
not_over (negsuc a) (pos b) h = tt
not_over (negsuc a) (negsuc b) h = ground arith

rejected-ne-parsed :
    (e : DataUriError) {payload : Bytes} {opt : FileDataUriOption} → rejected e ≢ parsed payload opt
rejected-ne-parsed e q = cc

parse_parts-Checked :
    (max_bytes : ℤ) (meta payload payload' : Bytes) (opt : FileDataUriOption)
    → parse_parts max_bytes meta payload ≡ parsed payload' opt
    → ((read_meta meta).1 ≡ true) × Checked max_bytes payload payload' opt
unfolding parse_parts
parse_parts-Checked max_bytes meta payload payload' opt h = elim (Bool-cases (read_meta meta).1) [
  | inr e ↦ absurd (rejected-ne-parsed not_base64 (sym (rw (e, parse_parts)) ∙ h))
  | inl e ↦ elim (Bool-cases (over_twice (length payload) max_bytes)) [
    | inl f ↦ absurd (rejected-ne-parsed encoded_too_large (sym (rw (e, f, parse_parts)) ∙ h))
    | inr f ↦ (
      e,
      check_size-Checked max_bytes payload payload' (read_meta meta).0 opt
          (sym (rw (e, f, parse_parts)) ∙ h),
    )
  ]
]

-- A URI that ParseFileDataURI accepts has the form data:<metadata>,<payload>, a part of the
-- metadata between semicolons is base64, outer spaces aside, and the size that is reported is not
-- over the cap and is three for every four characters of the payload, line breaks aside, less the
-- number of = that the payload ends in.
pub parse_file_data_uri-IsAccepted :
    (uri : Bytes) (max_bytes : ℤ) (payload : Bytes) (opt : FileDataUriOption)
    → parse_file_data_uri uri max_bytes ≡ parsed payload opt
    → IsAccepted uri max_bytes payload opt
unfolding parse_file_data_uri
parse_file_data_uri-IsAccepted uri max_bytes payload opt h =
    elim (Option-cases (cut_prefix (codes "data:") uri)) [
      | inl e ↦ absurd (rejected-ne-parsed not_data_uri (sym (rw (e, parse_file_data_uri)) ∙ h))
      | inr (body, e) ↦ elim (Option-cases (cut_at b',' body)) [
        | inl f ↦ absurd (rejected-ne-parsed no_comma (sym (rw (e, f, parse_file_data_uri)) ∙ h))
        | inr ((meta, payload'), f) ↦
            let k : parse_parts max_bytes meta payload' ≡ parsed payload opt =
              sym (rw (e, f, parse_file_data_uri)) ∙ h in
            let (b, c) = parse_parts-Checked max_bytes meta payload' payload opt k in
            let u =
              cut_prefix-append (codes "data:") uri body e
              ∙ ap (λ (t : Bytes). codes "data:" ++ t)
                  (cut_at-append b',' body meta payload' f
                    ∙ ap (λ (t : Bytes). meta ++ b',' ∷ t) c.same) in
            record {
              meta = meta;
              shape = u;
              marked = read_meta-SomePart meta b;
              sized =
                  subst (HasSize payload) (sym (c.sized ∙ ap base64_decoded_len c.same))
                    (base64_decoded_len-HasSize payload);
              within = not_over opt.size max_bytes c.within;
            }
      ]
    ]

over_twice_within :
    (m max_bytes : ℕ) (payload : Bytes)
    → length payload ≡ 4 * ((m + 2) / 3)
    → m ≤ max_bytes
    → 1 < max_bytes
    → 2 * max_bytes < int64_limit
    → over_twice (length payload) (pos max_bytes) ≡ false
unfolding over_twice
over_twice_within m max_bytes payload e h k l = ground (arith, e)

check_size_fits :
    (m max_bytes : ℕ) (payload : Bytes) (opt : FileDataUriOption)
    → base64_decoded_len payload ≡ pos m
    → m ≤ max_bytes
    → (int_eq opt.size (pos 0) || int_eq opt.size (pos m)) ≡ true
    → check_size (pos max_bytes) payload opt ≡ parsed payload (record opt { size = pos m })
unfolding check_size
check_size_fits m max_bytes payload opt e h s =
    ground (arith, int_eq→≡ opt.size (pos m), ltb_within)
  where
    ltb_within : ltb max_bytes m ≡ false
    ltb_within = ground arith

-- A data: URI is accepted, and reported with size m, if its metadata has no comma, says base64
-- and declares size 0, none or m, its payload has no line breaks and the form of an encoding of m
-- bytes, and the cap is at least m, more than 1 and below 2 ^ 62.
pub parse_file_data_uri-Encodes :
    (m max_bytes : ℕ) (meta payload : Bytes)
    → has_byte b',' meta ≡ false
    → (read_meta meta).1 ≡ true
    → (int_eq (read_meta meta).0.size (pos 0) || int_eq (read_meta meta).0.size (pos m)) ≡ true
    → Encodes m payload
    → length payload ≡ 4 * ((m + 2) / 3)
    → m ≤ max_bytes
    → 1 < max_bytes
    → 2 * max_bytes < int64_limit
    → parse_file_data_uri (codes "data:" ++ meta ++ b',' ∷ payload) (pos max_bytes)
      ≡ parsed payload (record (read_meta meta).0 { size = pos m })
unfolding parse_file_data_uri
parse_file_data_uri-Encodes m max_bytes meta payload c b s e n h k l =
    let p = cut_prefix-append_self (codes "data:") (meta ++ b',' ∷ payload) in
    let q = cut_at-append_self b',' meta payload c in
    let o = over_twice_within m max_bytes payload n h k l in
    rw (p, q, parse_file_data_uri)
      (rw (b, o, parse_parts)
        (check_size_fits m max_bytes payload (read_meta meta).0
          (base64_decoded_len-Encodes m payload e) h s))
