-- ===== src/Transfer/Download/Hooks.antt =====
-- The cleanup hook of a download: it is called when the token goes, and never lost before.
use mcpplane.Common.{
  ℕ, ◌≡◌, inl, inr, refl, String, Bool, true, false, ◌||◌, none, some, Option, List, [], ◌∷◌, ltb,
  ◌==◌, if◌then◌else◌, Dict, lookup, insert, delete, ℤ, arith, Option-cases, Bool-cases,
  lookup-insert, lookup-delete, str_eq, str_eq_iff, str_eq_self, Bytes, Entries, Entries-lookup,
  Entries-insert, Entries-delete, String-discrete,
}
use mcpplane.Transfer.Writers.{Source}
use mcpplane.Transfer.Download.{
  DownloadToken, Download, release, prune_downloads, minted, mint, claim, get_handler,
}
use mcpplane.Transfer.Download.Claims.{Call, mints, claims, ends, run, step, Unminted}

-- The hook was called.
abbrev pub was_called : ℕ → List ℕ → Bool
was_called h [] = false
was_called h (x ∷ log) = if x == h then true else was_called h log

-- The entries under the token have the hook.
abbrev Bound : String → ℕ → String → DownloadToken → Type 0
Bound token h k t = k ≡ token → t.cleanup ≡ some h

-- A token without an entry has had its hook called.
record HookSafe (token : String) (h : ℕ) (hd : Download) : Type 0 where
  bound : Entries (Bound token h) hd.tokens
  called : elim (lookup token hd.tokens) [ none ↦ was_called h hd.released | some t ↦ true ] ≡ true

was_called-release :
    (h : ℕ) (t : DownloadToken) (log : List ℕ)
    → was_called h log ≡ true
    → was_called h (release t log) ≡ true
unfolding release
was_called-release h t log e = ground arith

was_called_now :
    (h : ℕ) (t : DownloadToken) (log : List ℕ)
    → t.cleanup ≡ some h
    → was_called h (release t log) ≡ true
unfolding release
was_called_now h t log e = ground arith

-- The release of an entry that goes.
drop-HookSafe :
    (token : String) (h : ℕ) (k : String) (t : DownloadToken) (hd : Download)
    → HookSafe token h hd
    → Bound token h k t
    → HookSafe token h (record { tokens = delete k hd.tokens; released = release t hd.released })
drop-HookSafe token h k t hd s b = record {
  bound = Entries-delete (Bound token h) k hd.tokens s.bound;
  called = elim (String-discrete k token) [
    | yes p ↦ ground (
      arith,
      lookup-delete k token hd.tokens,
      str_eq_iff k token,
      was_called_now h t hd.released (b p),
    )
    | no p ↦
        let c = s.called in
        ground (
          arith,
          c,
          lookup-delete k token hd.tokens,
          str_eq_iff k token,
          was_called-release h t hd.released,
        )
  ];
}

prune_downloads-HookSafe :
    (token : String) (h now : ℕ) (m : Dict DownloadToken) (hd : Download)
    → Entries (Bound token h) m
    → HookSafe token h hd
    → HookSafe token h (prune_downloads now m hd)
unfolding prune_downloads
prune_downloads-HookSafe token h now [] hd b s = s
prune_downloads-HookSafe token h now ((j, t) ∷ m) hd b s =
    elim (Bool-cases (ltb t.expires_at now)) [
      | inl e ↦
          rw (e, prune_downloads)
            (prune_downloads-HookSafe token h now m
              (record { tokens = delete j hd.tokens; released = release t hd.released }) b.1
              (drop-HookSafe token h j t hd s b.0))
      | inr e ↦ rw (e, prune_downloads) (prune_downloads-HookSafe token h now m hd b.1 s)
    ]

put-HookSafe :
    (token : String) (h : ℕ) (k : String) (t : DownloadToken) (hd : Download)
    → HookSafe token h hd
    → Bound token h k t
    → HookSafe token h (record hd { tokens = insert k t hd.tokens })
put-HookSafe token h k t hd s b = record {
  bound = Entries-insert (Bound token h) k t hd.tokens s.bound b;
  called = let c = s.called in ground (arith, c, lookup-insert k token t hd.tokens);
}

claim-HookSafe :
    (token : String) (h now : ℕ) (k : String) (hd : Download)
    → HookSafe token h hd
    → HookSafe token h (claim now k hd).1
unfolding claim
claim-HookSafe token h now k hd s = elim (Option-cases (lookup k hd.tokens)) [
  | inl e ↦ rw (e, claim) s
  | inr (t, e) ↦
      let b : Bound token h k t = Entries-lookup (Bound token h) k t hd.tokens s.bound e in
      elim (Bool-cases (t.used || ltb t.expires_at now)) [
        | inl f ↦ rw (e, claim) (rw (f, if◌then◌else◌) (drop-HookSafe token h k t hd s b))
        | inr f ↦
            rw (e, claim)
              (rw (f, if◌then◌else◌) (put-HookSafe token h k (record t { used = true }) hd s b))
      ]
]

step-HookSafe :
    (token : String) (h : ℕ) (c : Call) (hd : Download)
    → Unminted token (c ∷ [])
    → HookSafe token h hd
    → HookSafe token h (step c hd)
unfolding step mint
step-HookSafe token h (mints up now t name size none ttl cleanup jwt) hd u s = s
step-HookSafe token h (mints false now t name size (some serve) ttl cleanup jwt) hd u s = s
step-HookSafe token h (mints true now t name size (some serve) ttl cleanup jwt) hd u s =
    put-HookSafe token h t (minted now name size serve ttl cleanup jwt)
      (prune_downloads now hd.tokens hd)
      (prune_downloads-HookSafe token h now hd.tokens hd s.bound s) (λ e. absurd (u.0 e))
step-HookSafe token h (claims now t) hd u s = claim-HookSafe token h now t hd s
step-HookSafe token h (ends t) hd u s = record {
  bound = s.bound;
  called = let c = s.called in ground (arith, c, was_called-release h t hd.released);
}

run-HookSafe :
    (token : String) (h : ℕ) (cs : List Call) (hd : Download)
    → Unminted token cs
    → HookSafe token h hd
    → HookSafe token h (run cs hd)
unfolding run
run-HookSafe token h [] hd u s = s
run-HookSafe token h (mints up now t name size serve ttl cleanup jwt ∷ cs) hd u s =
    run-HookSafe token h cs _ u.1
      (step-HookSafe token h (mints up now t name size serve ttl cleanup jwt) hd (u.0, tt) s)
run-HookSafe token h (claims now t ∷ cs) hd u s =
    run-HookSafe token h cs _ u (step-HookSafe token h (claims now t) hd tt s)
run-HookSafe token h (ends t ∷ cs) hd u s =
    run-HookSafe token h cs _ u (step-HookSafe token h (ends t) hd tt s)

-- A token without an entry.
absent-Bound :
    (token : String) (h : ℕ) (m : Dict DownloadToken)
    → lookup token m ≡ none
    → Entries (Bound token h) m
unfolding lookup
absent-Bound token h [] e = tt
absent-Bound token h ((j, t) ∷ m) e =
    (λ p. absurd (ground (arith, str_eq_iff j token)), absent-Bound token h m (ground arith))

prune_downloads-absent :
    (token : String) (now : ℕ) (m : Dict DownloadToken) (hd : Download)
    → lookup token hd.tokens ≡ none
    → lookup token (prune_downloads now m hd).tokens ≡ none
unfolding prune_downloads
prune_downloads-absent token now [] hd e = e
prune_downloads-absent token now ((j, t) ∷ m) hd e = elim (Bool-cases (ltb t.expires_at now)) [
  | inl f ↦
      rw (f, prune_downloads)
        (prune_downloads-absent token now m
          (record { tokens = delete j hd.tokens; released = release t hd.released })
          (ground (arith, lookup-delete j token hd.tokens)))
  | inr f ↦ rw (f, prune_downloads) (prune_downloads-absent token now m hd e)
]

mint-HookSafe :
    (now : ℕ) (token : String) (name : Bytes) (size : ℤ) (serve : String → Source) (ttl : ℤ) (h : ℕ)
    (hooks : List (Option ℕ)) (jwt : String) (hd : Download)
    → lookup token hd.tokens ≡ none
    → HookSafe token h (mint true now token name size (some serve) ttl (some h ∷ hooks) jwt hd).1
unfolding mint
mint-HookSafe now token name size serve ttl h hooks jwt hd e = record {
  bound =
      let a = prune_downloads-absent token now hd.tokens hd e in
      Entries-insert (Bound token h) token (minted now name size serve ttl (some h ∷ hooks) jwt)
        (prune_downloads now hd.tokens hd).tokens (absent-Bound token h _ a) (λ p. refl);
  called = ground (
    arith,
    lookup-insert token token (minted now name size serve ttl (some h ∷ hooks) jwt)
        (prune_downloads now hd.tokens hd).tokens,
    str_eq_self token,
  );
}

-- After the mint of a fresh token with a cleanup hook, and any mints of other tokens, claims and
-- ends of streams, the hook was called if the token has no entry any more.
pub run-was_called :
    (now : ℕ) (token : String) (name : Bytes) (size : ℤ) (serve : String → Source) (ttl : ℤ) (h : ℕ)
    (hooks : List (Option ℕ)) (jwt : String) (cs : List Call) (hd : Download)
    → lookup token hd.tokens ≡ none
    → Unminted token cs
    → lookup token
        (run cs (mint true now token name size (some serve) ttl (some h ∷ hooks) jwt hd).1).tokens
      ≡ none
    → was_called h
        (run cs (mint true now token name size (some serve) ttl (some h ∷ hooks) jwt hd).1).released
      ≡ true
run-was_called now token name size serve ttl h hooks jwt cs hd e u g =
    let m = (mint true now token name size (some serve) ttl (some h ∷ hooks) jwt hd).1 in
    let s =
      run-HookSafe token h cs m u (mint-HookSafe now token name size serve ttl h hooks jwt hd e) in
    let c = s.called in ground (arith, c, g)

-- A download that was let in and streamed calls its hook, and another request for the same token
-- calls it a second time.
pub claim-get_handler_again :
    (now later room h : ℕ) (token : String) (t : DownloadToken) (hd : Download)
    → str_eq token "" ≡ false
    → lookup token hd.tokens ≡ some t
    → t.used ≡ false
    → ltb t.expires_at now ≡ false
    → t.cleanup ≡ some h
    → (claim later token (get_handler true now token room (λ x. x) hd).1).1.released
      ≡ h ∷ h ∷ hd.released
unfolding claim get_handler release
claim-get_handler_again now later room h token t hd n e f g c =
    ground
      (arith, lookup-insert token token (record t { used = true }) hd.tokens, str_eq_self token)
