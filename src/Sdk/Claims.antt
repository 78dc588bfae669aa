-- ===== src/Sdk/Claims.antt =====
-- sdk/capsbuilder.go: the claims of a token, as values of Go's `any` by the cases of redactClaimValue,
-- and their redaction.
pub mod Clean
use mcpplane.Common.{
  ℕ, Bool, true, false, ◌||◌, List, [], ◌∷◌, map, Option, none, some, if◌then◌else◌, Bytes,
  bytes_eq,
}
use mcpplane.Sdk.Redaction.{redacted_placeholder, is_sensitive_token_claim, looks_like_credential}

-- A key of a map[any]any.
pub data AnyKey : Type 0 where
  string_key : Bytes → AnyKey
  other_key : ℕ → AnyKey

-- string, map[string]any, []any, map[string]string, []string and map[any]any; any other value is opaque.
mutual
  pub data Value : Type 0 where
    text : Bytes → Value
    object : Fields → Value
    array : Items → Value
    string_map : List (Bytes × Bytes) → Value
    string_list : List Bytes → Value
    any_map : Entries → Value
    opaque : ℕ → Value

  pub data Fields : Type 0 where
    no_fields : Fields
    field : Bytes → Value → Fields → Fields

  pub data Items : Type 0 where
    no_items : Items
    item : Value → Items → Items

  pub data Entries : Type 0 where
    no_entries : Entries
    entry : AnyKey → Value → Entries → Entries

abbrev pub placeholder : Value
placeholder = text redacted_placeholder

-- ks, ok := k.(string); ok && isSensitiveTokenClaim(ks)
abbrev pub is_sensitive_key : AnyKey → Bool
is_sensitive_key (string_key k) = is_sensitive_token_claim k
is_sensitive_key (other_key n) = false

unfoldable pub redact_text : Bytes → Bytes
redact_text s = if looks_like_credential s then redacted_placeholder else s

unfoldable pub redact_string_map : List (Bytes × Bytes) → List (Bytes × Bytes)
redact_string_map [] = []
redact_string_map ((k, s) ∷ m) =
    (k, if is_sensitive_token_claim k || looks_like_credential s then redacted_placeholder else s)
    ∷ redact_string_map m

unfoldable mutual
  unfolding redact_text redact_string_map

  pub redact_claim_value : Value → Value
  redact_claim_value (text s) = text (redact_text s)
  redact_claim_value (object fs) = object (redact_fields fs)
  redact_claim_value (array xs) = array (redact_items xs)
  redact_claim_value (string_map m) = string_map (redact_string_map m)
  redact_claim_value (string_list ss) = string_list (map redact_text ss)
  redact_claim_value (any_map es) = any_map (redact_entries es)
  redact_claim_value (opaque n) = opaque n

  -- Of a map[string]any, which is also the loop of RedactTokenClaims.
  pub redact_fields : Fields → Fields
  redact_fields no_fields = no_fields
  redact_fields (field k v fs) =
      let v' = redact_claim_value v in
      field k (if is_sensitive_token_claim k then placeholder else v') (redact_fields fs)

  pub redact_items : Items → Items
  redact_items no_items = no_items
  redact_items (item v xs) = item (redact_claim_value v) (redact_items xs)

  pub redact_entries : Entries → Entries
  redact_entries no_entries = no_entries
  redact_entries (entry k v es) =
      let v' = redact_claim_value v in
      entry k (if is_sensitive_key k then placeholder else v') (redact_entries es)

-- A nil map is none.
unfoldable pub redact_token_claims : Option Fields → Option Fields
unfolding redact_claim_value
redact_token_claims none = none
redact_token_claims (some fs) = some (redact_fields fs)
