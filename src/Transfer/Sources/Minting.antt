-- ===== src/Transfer/Sources/Minting.antt =====
-- When a resolver mints an endpoint, and what it leaves.
use mcpplane.Common.{
  ℕ, ◌+◌, ◌≡◌, ◌∙◌, String, Bool, true, false, Option, none, some, ℤ, Option-cases, Bool-cases, inl,
  inr, str_eq, str_eq_self, str_eq_iff, arith, lookup, lookup-insert, String-discrete,
}
use mcpplane.Transfer.Tasks.Types.{name_or, default_upload_name}
use mcpplane.Transfer.Endpoint.{Upload, HttpToken, mint, effective_ttl, prune}
use mcpplane.Transfer.Sources.{
  SourceResolver, UploadSource, SourceError, mint_refused, minted, mint_url, validate, source_path,
  source_mint, source_url, source_data, transport_http,
}
use mcpplane.Transfer.Sources.Coherent.{
  Fits, validate-Fits, by_path, by_mint, by_url, by_data, mode_of,
}

http_of : (t : String) (s : UploadSource) → s.mode ≡ source_mint → Fits t s → t ≡ transport_http
unfolding String-discrete
http_of t s q (by_path m h p) = absurd (let e = mode_of s source_path source_mint m q in cc)
http_of t s q (by_mint m h) = h
http_of t s q (by_url m h p) = absurd (let e = mode_of s source_url source_mint m q in cc)
http_of t s q (by_data m h p) = absurd (let e = mode_of s source_data source_mint m q in cc)

abbrev fresh : ℕ → String → ℤ → String → HttpToken
fresh now name ttl jwt = record {
  name = name_or name default_upload_name;
  expires_at = now + effective_ttl ttl;
  used = false;
  handle = "";
  jwt = jwt;
}

abbrev token_of : {R : Type 0} → String → Option (Upload R) → Option HttpToken
token_of token none = none
token_of token (some u) = lookup token u.tokens

lookup-mint :
    {R : Type 0}
    → (now : ℕ) (token name : String) (ttl : ℤ) (jwt : String) (u : Upload R)
    → lookup token (mint true now token name ttl jwt u).1.tokens ≡ some (fresh now name ttl jwt)
unfolding mint
lookup-mint now token name ttl jwt u =
    lookup-insert token token (fresh now name ttl jwt) (prune now u).tokens
    ∙ ground (arith, str_eq_self token)

-- A call that mints nothing leaves the upload as it is.
mint_url-refused :
    {R : Type 0}
    → (r : SourceResolver) (s : UploadSource) (up : Bool) (now : ℕ) (token name : String) (ttl : ℤ)
      (jwt : String) (cu : Option (Upload R)) (e : SourceError)
    → (mint_url r s up now token name ttl jwt cu).0 ≡ mint_refused e
    → (mint_url r s up now token name ttl jwt cu).1 ≡ cu
unfolding mint_url mint
mint_url-refused r s up now token name ttl jwt none e h = ground arith
mint_url-refused r s false now token name ttl jwt (some u) e h = ground arith
mint_url-refused r s true now token name ttl jwt (some u) e h = ground arith

-- A call that mints runs on the HTTP transport, for a source of mode mint; the token that it was given
-- then stands in the upload unused, under the given name or the default one, without a handle,
-- until the time to live or its default after the call.
mint_url-live :
    {R : Type 0}
    → (r : SourceResolver) (s : UploadSource) (up : Bool) (now : ℕ) (token name : String) (ttl : ℤ)
      (jwt : String) (cu : Option (Upload R)) (answer : String)
    → (mint_url r s up now token name ttl jwt cu).0 ≡ minted answer
    → (r.transport ≡ transport_http)
      × (s.mode ≡ source_mint)
      × (answer ≡ token)
      × (token_of token (mint_url r s up now token name ttl jwt cu).1
          ≡ some (fresh now name ttl jwt))
unfolding mint_url mint
mint_url-live r s up now token name ttl jwt none answer h = absurd (ground arith)
mint_url-live r s false now token name ttl jwt (some u) answer h = absurd (ground arith)
mint_url-live r s true now token name ttl jwt (some u) answer h =
    elim (Option-cases (validate r.transport s)) [
      | inr (e, v) ↦ absurd (ground arith)
      | inl v ↦ elim (Bool-cases (str_eq s.mode source_mint)) [
        | inr e ↦ absurd (ground arith)
        | inl e ↦
            let m = (str_eq_iff s.mode source_mint).0 e in
            (
              http_of r.transport s m (validate-Fits r.transport s v),
              m,
              ground arith,
              rw (v, e, mint_url) (lookup-mint now token name ttl jwt u),
            )
      ]
    ]
