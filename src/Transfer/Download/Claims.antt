-- ===== src/Transfer/Download/Claims.antt =====
-- A download token lets in one request.
use mcpplane.Common.{
  ℕ, ◌+◌, ◌≡◌, ◌≢◌, inl, inr, String, Bool, true, false, none, some, Option, List, [], ◌∷◌, ltb,
  if◌then◌else◌, Dict, lookup, delete, ℤ, arith, Option-cases, Bool-cases, lookup-insert,
  lookup-delete, str_eq_iff, str_eq_self, positive_or, Bytes,
}
use mcpplane.Transfer.Writers.{Source}
use mcpplane.Transfer.Download.{
  DownloadToken, Download, release, prune_downloads, minted, mint, claim, default_http_download_ttl,
}

-- A section of the coordinator: a Mint, the claim of a request, and the release when its stream ends.
pub data Call : Type 0 where
  mints :
      Bool → ℕ → String → Bytes → ℤ → Option (String → Source) → ℤ → List (Option ℕ) → String → Call
  claims : ℕ → String → Call
  ends : DownloadToken → Call

unfoldable pub step : Call → Download → Download
step (mints up now token name size serve ttl cleanup jwt) hd =
    (mint up now token name size serve ttl cleanup jwt hd).1
step (claims now token) hd = (claim now token hd).1
step (ends t) hd = record hd { released = release t hd.released }

unfoldable pub run : List Call → Download → Download
unfolding step
run [] hd = hd
run (c ∷ cs) hd = run cs (step c hd)

-- No call of the list makes the token anew.
abbrev pub Unminted : String → List Call → Type 0
Unminted token [] = Unit
Unminted token (mints up now t name size serve ttl cleanup jwt ∷ cs) =
    (t ≢ token) × Unminted token cs
Unminted token (claims now t ∷ cs) = Unminted token cs
Unminted token (ends t ∷ cs) = Unminted token cs

-- A token that was used, or that the map does not have.
abbrev IsSpent : String → Dict DownloadToken → Type 0
IsSpent token m = elim (lookup token m) [ none ↦ true | some t ↦ t.used ] ≡ true

prune_downloads-IsSpent :
    (now : ℕ) (token : String) (m : Dict DownloadToken) (hd : Download)
    → IsSpent token hd.tokens
    → IsSpent token (prune_downloads now m hd).tokens
unfolding prune_downloads
prune_downloads-IsSpent now token [] hd h = h
prune_downloads-IsSpent now token ((j, t) ∷ m) hd h = elim (Bool-cases (ltb t.expires_at now)) [
  | inl e ↦
      rw (e, prune_downloads)
        (prune_downloads-IsSpent now token m
          (record { tokens = delete j hd.tokens; released = release t hd.released })
          (ground (arith, lookup-delete j token hd.tokens)))
  | inr e ↦ rw (e, prune_downloads) (prune_downloads-IsSpent now token m hd h)
]

mint-IsSpent :
    (up : Bool) (now : ℕ) (token t : String) (name : Bytes) (size : ℤ)
    (serve : Option (String → Source)) (ttl : ℤ) (cleanup : List (Option ℕ)) (jwt : String)
    (hd : Download)
    → t ≢ token
    → IsSpent token hd.tokens
    → IsSpent token (mint up now t name size serve ttl cleanup jwt hd).1.tokens
unfolding mint
mint-IsSpent up now token t name size none ttl cleanup jwt hd n h = h
mint-IsSpent false now token t name size (some serve) ttl cleanup jwt hd n h = h
mint-IsSpent true now token t name size (some serve) ttl cleanup jwt hd n h = ground (
  arith,
  prune_downloads-IsSpent now token hd.tokens hd h,
  lookup-insert t token (minted now name size serve ttl cleanup jwt)
      (prune_downloads now hd.tokens hd).tokens,
  str_eq_iff t token,
)

claim-IsSpent :
    (now : ℕ) (token t : String) (hd : Download)
    → IsSpent token hd.tokens
    → IsSpent token (claim now t hd).1.tokens
unfolding claim
claim-IsSpent now token t hd h = elim (Option-cases (lookup t hd.tokens)) [
  | inl e ↦ rw (e, claim) h
  | inr (v, e) ↦ ground (
    arith,
    lookup-delete t token hd.tokens,
    lookup-insert t token (record v { used = true }) hd.tokens,
    str_eq_iff t token,
  )
]

claimed-IsSpent :
    (now : ℕ) (token : String) (hd : Download) → IsSpent token (claim now token hd).1.tokens
unfolding claim
claimed-IsSpent now token hd = elim (Option-cases (lookup token hd.tokens)) [
  | inl e ↦ ground arith
  | inr (v, e) ↦ ground (
    arith,
    lookup-delete token token hd.tokens,
    lookup-insert token token (record v { used = true }) hd.tokens,
    str_eq_self token,
  )
]

run-IsSpent :
    (token : String) (cs : List Call) (hd : Download)
    → Unminted token cs
    → IsSpent token hd.tokens
    → IsSpent token (run cs hd).tokens
unfolding run
run-IsSpent token [] hd u h = h
run-IsSpent token (mints up now t name size serve ttl cleanup jwt ∷ cs) hd u h =
    run-IsSpent token cs _ u.1
      (mint-IsSpent up now token t name size serve ttl cleanup jwt hd u.0 h)
run-IsSpent token (claims now t ∷ cs) hd u h =
    run-IsSpent token cs _ u (claim-IsSpent now token t hd h)
run-IsSpent token (ends t ∷ cs) hd u h = run-IsSpent token cs _ u h

-- After any claim of a download token, whether it was accepted or not, and any mints of other
-- tokens, claims and ends of streams, a claim of it is refused.
pub claim_spent :
    (now later : ℕ) (token : String) (cs : List Call) (hd : Download)
    → Unminted token cs
    → (claim later token (run cs (claim now token hd).1)).0 ≡ none
unfolding claim
claim_spent now later token cs hd u =
    let s = run-IsSpent token cs (claim now token hd).1 u (claimed-IsSpent now token hd) in
    spent_refused later token (run cs (claim now token hd).1) s
  where
    spent_refused :
        (now : ℕ) (token : String) (hd : Download)
        → IsSpent token hd.tokens
        → (claim now token hd).0 ≡ none
    spent_refused now token hd h = ground arith

-- A minted token is accepted up to and including the end of its time to live, with what was given to
-- Mint, and refused after that.
pub claim-mint :
    (now later : ℕ) (token : String) (name : Bytes) (size : ℤ) (serve : String → Source) (ttl : ℤ)
    (cleanup : List (Option ℕ)) (jwt : String) (hd : Download)
    → (claim later token (mint true now token name size (some serve) ttl cleanup jwt hd).1).0 ≡ (
        if ltb (now + positive_or ttl default_http_download_ttl) later
        then none
        else some (record (minted now name size serve ttl cleanup jwt) { used = true }))
unfolding claim mint
claim-mint now later token name size serve ttl cleanup jwt hd = ground (
  arith,
  lookup-insert token token (minted now name size serve ttl cleanup jwt)
      (prune_downloads now hd.tokens hd).tokens,
  str_eq_self token,
)
