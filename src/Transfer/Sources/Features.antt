-- ===== src/Transfer/Sources/Features.antt =====
-- The modes that a feature set advertises, and its transport.
use mcpplane.Common.{
  String, ◌≡◌, refl, sym, ap, ◌∙◌, Bool, true, false, ◌||◌, List, [], ◌∷◌, String-discrete,
  if◌then◌else◌,
}
use mcpplane.Transfer.Sources.{
  FeatureSet, has, modes_among, source_mode_enum_from_features, transport_kind_from_features,
  available, source_path, source_mint, source_url, source_data, transport_stdio, transport_http,
  transport_openai,
}

first_of :
    (a mode t : String) (listed modes : List String)
    → listed ≡ mode ∷ modes
    → (modes' : List String) → listed ≡ a ∷ modes'
    → available a t ≡ true
    → available mode t ≡ true
first_of a mode t listed modes h modes' k e =
    ap (λ m. available m t) (let q : a ≡ mode = cc in sym q) ∙ e

no_modes : (mode : String) (modes : List String) → [] ≡ mode ∷ modes → ⊥
no_modes mode modes h = cc

abbrev advertised : Bool → Bool → Bool → Bool → List String
advertised p m u d =
    let ds : List String = if d then source_data ∷ [] else [] in
    let us : List String = if u then source_url ∷ ds else ds in
    let ms : List String = if m then source_mint ∷ us else us in if p then source_path ∷ ms else ms

abbrev transport : Bool → Bool → Bool → Bool → String
transport p m u d =
    if p
    then transport_stdio
    else if m
    then transport_http
    else if u || d
    then transport_openai
    else transport_http

advertised-available :
    (p m u d : Bool) (mode : String) (modes : List String)
    → advertised p m u d ≡ mode ∷ modes
    → available mode (transport p m u d) ≡ true
unfolding available String-discrete
advertised-available true m u d mode modes h =
    first_of source_path mode transport_stdio (advertised true m u d) modes h
      (advertised false m u d) refl refl
advertised-available false true u d mode modes h =
    first_of source_mint mode transport_http (advertised false true u d) modes h
      (advertised false false u d) refl refl
advertised-available false false true d mode modes h =
    first_of source_url mode transport_openai (advertised false false true d) modes h
      (advertised false false false d) refl refl
advertised-available false false false true mode modes h =
    first_of source_data mode transport_openai (advertised false false false true) modes h [] refl
      refl
advertised-available false false false false mode modes h = absurd (no_modes mode modes h)

-- The first mode that SourceModeEnumFromFeatures advertises for a set of features is available on
-- the transport that TransportKindFromFeatures gives for the same set, whichever features it has.
pub source_mode_enum_from_features-available :
    (fs : FeatureSet) (mode : String) (modes : List String)
    → source_mode_enum_from_features fs ≡ mode ∷ modes
    → available mode (transport_kind_from_features fs) ≡ true
unfolding source_mode_enum_from_features modes_among transport_kind_from_features
source_mode_enum_from_features-available fs mode modes h =
    advertised-available (has "source-path" fs) (has "source-mint" fs) (has "source-url" fs)
      (has "source-data" fs) mode modes h
