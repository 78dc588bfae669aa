-- ===== src/Sdk/Claims/Clean.antt =====
-- What is left of a token's claims after the redaction.
use mcpplane.Common.{
  ◌≡◌, refl, sym, ap, Bool, true, false, not, ◌&&◌, List, [], ◌∷◌, map, some, if◌then◌else◌, Bytes,
  bytes_eq, bytes_eq→≡, bytes_eq_self, cut_prefix, arith,
}
use mcpplane.Sdk.Redaction.{redacted_placeholder, is_sensitive_token_claim, looks_like_credential}
use mcpplane.Sdk.Claims.{
  Value, text, object, array, string_map, string_list, any_map, opaque, Fields, no_fields, field,
  Items, no_items, item, Entries, no_entries, entry, placeholder, is_sensitive_key, redact_text,
  redact_string_map, redact_claim_value, redact_fields, redact_items, redact_entries,
  redact_token_claims,
}

abbrev pub is_placeholder : Value → Bool
is_placeholder (text s) = bytes_eq s redacted_placeholder
is_placeholder v = false

abbrev pub clean_text : Bytes → Bool
clean_text s = not (looks_like_credential s)

-- The value of an entry: the placeholder under a sensitive key, and no credential otherwise.
pub clean_pairs : List (Bytes × Bytes) → Bool
clean_pairs [] = true
clean_pairs ((k, s) ∷ m) =
    (if is_sensitive_token_claim k then bytes_eq s redacted_placeholder else clean_text s)
    && clean_pairs m

pub clean_texts : List Bytes → Bool
clean_texts [] = true
clean_texts (s ∷ ss) = clean_text s && clean_texts ss

-- No text, at any depth, looks like a credential, and each entry under a sensitive key is the
-- placeholder.
unfoldable mutual
  unfolding clean_pairs clean_texts

  pub is_clean : Value → Bool
  is_clean (text s) = clean_text s
  is_clean (object fs) = clean_fields fs
  is_clean (array xs) = clean_items xs
  is_clean (string_map m) = clean_pairs m
  is_clean (string_list ss) = clean_texts ss
  is_clean (any_map es) = clean_entries es
  is_clean (opaque n) = true

  pub clean_fields : Fields → Bool
  clean_fields no_fields = true
  clean_fields (field k v fs) =
      let c = is_clean v in
      (if is_sensitive_token_claim k then is_placeholder v else c) && clean_fields fs

  pub clean_items : Items → Bool
  clean_items no_items = true
  clean_items (item v xs) = is_clean v && clean_items xs

  pub clean_entries : Entries → Bool
  clean_entries no_entries = true
  clean_entries (entry k v es) =
      let c = is_clean v in (if is_sensitive_key k then is_placeholder v else c) && clean_entries es

placeholder_clean : looks_like_credential redacted_placeholder ≡ false
unfolding looks_like_credential cut_prefix
placeholder_clean = refl

clean_text-redact_text : (s : Bytes) → clean_text (redact_text s) ≡ true
unfolding redact_text
clean_text-redact_text s = ground (arith, placeholder_clean)

clean_pairs-redact : (m : List (Bytes × Bytes)) → clean_pairs (redact_string_map m) ≡ true
unfolding clean_pairs redact_string_map
clean_pairs-redact [] = refl
clean_pairs-redact ((k, s) ∷ m) =
    ground (arith, clean_pairs-redact m, placeholder_clean, bytes_eq_self redacted_placeholder)

clean_texts-redact : (ss : List Bytes) → clean_texts (map redact_text ss) ≡ true
unfolding clean_texts
clean_texts-redact [] = refl
clean_texts-redact (s ∷ ss) = ground (arith, clean_texts-redact ss, clean_text-redact_text s)

mutual
  unfolding is_clean redact_claim_value

  is_clean-redact : (v : Value) → is_clean (redact_claim_value v) ≡ true
  is_clean-redact (text s) = clean_text-redact_text s
  is_clean-redact (object fs) = clean_fields-redact fs
  is_clean-redact (array xs) = clean_items-redact xs
  is_clean-redact (string_map m) = clean_pairs-redact m
  is_clean-redact (string_list ss) = clean_texts-redact ss
  is_clean-redact (any_map es) = clean_entries-redact es
  is_clean-redact (opaque n) = refl

  clean_fields-redact : (fs : Fields) → clean_fields (redact_fields fs) ≡ true
  clean_fields-redact no_fields = refl
  clean_fields-redact (field k v fs) =
      ground (arith, is_clean-redact v, clean_fields-redact fs, bytes_eq_self redacted_placeholder)

  clean_items-redact : (xs : Items) → clean_items (redact_items xs) ≡ true
  clean_items-redact no_items = refl
  clean_items-redact (item v xs) = ground (arith, is_clean-redact v, clean_items-redact xs)

  clean_entries-redact : (es : Entries) → clean_entries (redact_entries es) ≡ true
  clean_entries-redact no_entries = refl
  clean_entries-redact (entry k v es) =
      ground (arith, is_clean-redact v, clean_entries-redact es, bytes_eq_self redacted_placeholder)

redact_text_kept : (s : Bytes) → clean_text s ≡ true → redact_text s ≡ s
unfolding redact_text
redact_text_kept s h = ground arith

is_placeholder→≡ : (v : Value) → is_placeholder v ≡ true → placeholder ≡ v
is_placeholder→≡ (text s) h = ap text (sym (bytes_eq→≡ s redacted_placeholder h))
is_placeholder→≡ (object fs) h = cc
is_placeholder→≡ (array xs) h = cc
is_placeholder→≡ (string_map m) h = cc
is_placeholder→≡ (string_list ss) h = cc
is_placeholder→≡ (any_map es) h = cc
is_placeholder→≡ (opaque n) h = cc

pairs_kept : (m : List (Bytes × Bytes)) → clean_pairs m ≡ true → redact_string_map m ≡ m
unfolding clean_pairs redact_string_map
pairs_kept [] h = refl
pairs_kept ((k, s) ∷ m) h = ground (arith, pairs_kept m, bytes_eq→≡ s redacted_placeholder)

texts_kept : (ss : List Bytes) → clean_texts ss ≡ true → map redact_text ss ≡ ss
unfolding clean_texts
texts_kept [] h = refl
texts_kept (s ∷ ss) h = ground (arith, texts_kept ss, redact_text_kept s)

mutual
  unfolding is_clean redact_claim_value

  value_kept : (v : Value) → is_clean v ≡ true → redact_claim_value v ≡ v
  value_kept (text s) h = ap text (redact_text_kept s h)
  value_kept (object fs) h = ap object (fields_kept fs h)
  value_kept (array xs) h = ap array (items_kept xs h)
  value_kept (string_map m) h = ap string_map (pairs_kept m h)
  value_kept (string_list ss) h = ap string_list (texts_kept ss h)
  value_kept (any_map es) h = ap any_map (entries_kept es h)
  value_kept (opaque n) h = refl

  fields_kept : (fs : Fields) → clean_fields fs ≡ true → redact_fields fs ≡ fs
  fields_kept no_fields h = refl
  fields_kept (field k v fs) h = ground (arith, value_kept v, fields_kept fs, is_placeholder→≡ v)

  items_kept : (xs : Items) → clean_items xs ≡ true → redact_items xs ≡ xs
  items_kept no_items h = refl
  items_kept (item v xs) h = ground (arith, value_kept v, items_kept xs)

  entries_kept : (es : Entries) → clean_entries es ≡ true → redact_entries es ≡ es
  entries_kept no_entries h = refl
  entries_kept (entry k v es) h = ground (arith, value_kept v, entries_kept es, is_placeholder→≡ v)

-- In the redacted claims of a token no text outside a sensitive key, at any depth of the maps and
-- slices that the redaction enters, looks like a credential, and each entry under a sensitive key
-- is the placeholder.
pub clean_fields-redact_fields : (fs : Fields) → clean_fields (redact_fields fs) ≡ true
clean_fields-redact_fields fs = clean_fields-redact fs

-- Claims that are clean are left as they are.
pub redact_token_claims_kept :
    (fs : Fields) → clean_fields fs ≡ true → redact_token_claims (some fs) ≡ some fs
unfolding redact_token_claims
redact_token_claims_kept fs h = ap some (fields_kept fs h)

-- Redacting the claims twice is redacting them once.
pub redact_token_claims_idem :
    (fs : Fields) → redact_token_claims (some (redact_fields fs)) ≡ redact_token_claims (some fs)
unfolding redact_token_claims
redact_token_claims_idem fs = ap some (fields_kept (redact_fields fs) (clean_fields-redact fs))
