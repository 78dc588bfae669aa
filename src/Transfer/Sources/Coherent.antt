-- ===== src/Transfer/Sources/Coherent.antt =====
-- The sources that the check accepts.
use mcpplane.Common.{
  sym, str_eq_self, String, ◌≡◌, ◌≢◌, ◌↔◌, refl, ap, ◌∙◌, true, false, [], ◌∷◌, Bytes, none,
  String-discrete, str_eq, arith,
}
use mcpplane.Transfer.Sources.{
  UploadSource, check_payload, validate, available, source_path, source_mint, source_url,
  source_data, transport_stdio, transport_http, transport_openai, is_empty,
}

-- The four ways to fit a transport.
pub data Fits (t : String) (s : UploadSource) : Type 0 where
  by_path : s.mode ≡ source_path → t ≡ transport_stdio → s.path ≢ [] → Fits t s
  by_mint : s.mode ≡ source_mint → t ≡ transport_http → Fits t s
  by_url : s.mode ≡ source_url → t ≡ transport_openai → s.url ≢ [] → Fits t s
  by_data : s.mode ≡ source_data → t ≡ transport_openai → s.data_uri ≢ [] → Fits t s

pub mode_of : (s : UploadSource) (a b : String) → s.mode ≡ a → s.mode ≡ b → str_eq a b ≡ true
mode_of s a b p q = ap (str_eq a) (sym q ∙ p) ∙ str_eq_self a

is_full : (s : Bytes) → is_empty s ≡ false → s ≢ []
is_full s h e = cc

not_full : (s : Bytes) → s ≢ [] → is_empty s ≡ false
not_full [] n = absurd (n refl)
not_full (c ∷ s) n = refl

-- The source with another mode, on another transport.
moved :
    (t t' : String) (m : String) (s : UploadSource)
    → t ≡ t'
    → s.mode ≡ m
    → validate t' (record s { mode = m }) ≡ none
    → validate t s ≡ none
moved t t' m s q e h =
    ap (λ x. validate x s) q ∙ ap (λ x. validate t' (record s { mode = x })) e ∙ h

Fits-validate : (t : String) (s : UploadSource) → Fits t s → validate t s ≡ none
unfolding validate check_payload available String-discrete
Fits-validate t s (by_path m q p) =
    moved t transport_stdio source_path s q m (rw (not_full s.path p, validate, check_payload))
Fits-validate t s (by_mint m q) = moved t transport_http source_mint s q m refl
Fits-validate t s (by_url m q p) =
    moved t transport_openai source_url s q m (rw (not_full s.url p, validate, check_payload))
Fits-validate t s (by_data m q p) =
    moved t transport_openai source_data s q m (rw (not_full s.data_uri p, validate, check_payload))

pub validate-Fits : (t : String) (s : UploadSource) → validate t s ≡ none → Fits t s
unfolding validate check_payload available
validate-Fits t s h = elim (String-discrete s.mode source_path) [
  | yes m ↦ by_path m (ground arith) (is_full s.path (ground arith))
  | no n ↦ elim (String-discrete s.mode source_mint) [
    | yes m ↦ by_mint m (ground arith)
    | no n2 ↦ elim (String-discrete s.mode source_url) [
      | yes m ↦ by_url m (ground arith) (is_full s.url (ground arith))
      | no n3 ↦ elim (String-discrete s.mode source_data) [
        | yes m ↦ by_data m (ground arith) (is_full s.data_uri (ground arith))
        | no n4 ↦ absurd (ground arith)
      ]
    ]
  ]
]

-- A source is accepted on a transport if and only if its mode and the transport are path and stdio, mint
-- and HTTP, or url or data and the OpenAI tunnel, and the mode's own field, if it has one, is not
-- empty.
validate-Fits_iff : (t : String) (s : UploadSource) → (validate t s ≡ none) ↔ Fits t s
validate-Fits_iff t s = (validate-Fits t s, Fits-validate t s)
