-- ===== src/Handoff/Endpoint/History.antt =====
-- Histories of an endpoint: every sequence of its methods, with any readings of its clock.
use mcpplane.Common.{
  ℕ, ℤ, ◌+◌, ◌≤◌, ◌≡◌, ◌≢◌, refl, String, true, false, none, List, [], ◌∷◌, ltb, length, Dict,
  lookup, delete, lookup-insert, lookup-delete, Option-cases, Bool-cases, inl, inr, arith,
}
use mcpplane.Handoff.Endpoint.{
  Item, Endpoint, active, max_spent_tombstones, new, mint, mark_spent, prune_spent, resolve_item,
  resolve, remove, claim, prune_items, prune_expired,
}
use mcpplane.Handoff.Endpoint.Tombstones.{
  IsTracked, mark_spent-IsTracked, mark_spent-length, prune_spent-IsTracked,
}

pub data Call (P : Type 0) : Type 0 where
  mints : ℕ → String → P → Call P
  resolves removes claims : ℕ → String → Call P
  prunes : ℕ → Call P

module _ {P : Type 0} where
  pub step : Call P → Endpoint P → Endpoint P
  step (mints now token p) h = mint now token p h
  step (resolves now token) h = (resolve now token h).1
  step (removes now token) h = remove now token h
  step (claims now token) h = (claim now token h).1
  step (prunes now) h = prune_expired now h

  pub run : List (Call P) → Endpoint P → Endpoint P
  run [] h = h
  run (c ∷ cs) h = run cs (step c h)

  -- The tombstones are listed by their order, and at most one is over the cap.
  pub record IsValid (h : Endpoint P) : Type 0 where
    pub tracked : IsTracked h
    pub bounded : length h.spent ≤ max_spent_tombstones + 1

  prune_items-IsTracked :
      (now : ℕ) (m : Dict (Item P)) (h : Endpoint P) → IsTracked h → IsTracked (prune_items now m h)
  unfolding prune_items
  prune_items-IsTracked now [] h t = t
  prune_items-IsTracked now ((token, item) ∷ m) h t = elim (Bool-cases (ltb item.expires_at now)) [
    | inl past ↦
        rw (past, prune_items)
          (prune_items-IsTracked now m
            (mark_spent token now (record h { items = delete token h.items }))
            (mark_spent-IsTracked token now (record h { items = delete token h.items }) t))
    | inr live ↦ rw (live, prune_items) (prune_items-IsTracked now m h t)
  ]

  pruned-IsValid : (h : Endpoint P) → IsTracked h → IsValid (prune_spent h)
  pruned-IsValid h t = record {
    tracked = (prune_spent-IsTracked h t).0;
    bounded = omega (arith, (prune_spent-IsTracked h t).1);
  }

  remove-IsValid :
      (now : ℕ) (token : String) (h : Endpoint P) → IsValid h → IsValid (remove now token h)
  unfolding remove
  remove-IsValid now token h v =
      pruned-IsValid _
        (mark_spent-IsTracked token now (record h { items = delete token h.items }) v.tracked)

  resolve_item-IsValid :
      (now : ℕ) (token : String) (h : Endpoint P)
      → IsTracked h
      → length h.spent ≤ max_spent_tombstones
      → IsValid (resolve_item now token h).1
  unfolding resolve_item
  resolve_item-IsValid now token h t b =
      let g : Endpoint P = record h { items = delete token h.items } in
      let marked : IsTracked (mark_spent token now g) = mark_spent-IsTracked token now g t in
      let size : length (mark_spent token now g).spent ≤ length h.spent + 1 =
        mark_spent-length token now g in
      elim (Option-cases (lookup token h.spent)) [
        | inr (v, p) ↦ rw (p, resolve_item) (record { tracked = t; bounded = omega arith })
        | inl p ↦
            rw (p, resolve_item)
              (elim (Option-cases (lookup token h.items)) [
                | inl q ↦ rw (q, resolve_item) (record { tracked = t; bounded = omega arith })
                | inr (item, q) ↦
                    rw (q, resolve_item)
                      (elim (Bool-cases (ltb item.expires_at now)) [
                        | inl past ↦
                            rw (past, resolve_item)
                              (record { tracked = marked; bounded = omega arith })
                        | inr live ↦
                            rw (live, resolve_item) (record { tracked = t; bounded = omega arith })
                      ])
              ])
      ]

  claim-IsValid :
      (now : ℕ) (token : String) (h : Endpoint P) → IsValid h → IsValid (claim now token h).1
  unfolding claim
  claim-IsValid now token h v = elim (Option-cases (lookup token h.items)) [
    | inl e ↦ rw (e, claim) v
    | inr (i, e) ↦
        rw (e, claim)
          (pruned-IsValid _
            (mark_spent-IsTracked token now (record h { items = delete token h.items }) v.tracked))
  ]

  step-IsValid : (c : Call P) (h : Endpoint P) → IsValid h → IsValid (step c h)
  unfolding step mint prune_expired resolve
  step-IsValid (mints now token p) h v = record { tracked = v.tracked; bounded = v.bounded }
  step-IsValid (resolves now token) h v =
      let (t, b) = prune_spent-IsTracked h v.tracked in
      resolve_item-IsValid now token (prune_spent h) t b
  step-IsValid (removes now token) h v = remove-IsValid now token h v
  step-IsValid (claims now token) h v = claim-IsValid now token h v
  step-IsValid (prunes now) h v = pruned-IsValid _ (prune_items-IsTracked now h.items h v.tracked)

  run-IsValid : (cs : List (Call P)) (h : Endpoint P) → IsValid h → IsValid (run cs h)
  unfolding run
  run-IsValid [] h v = v
  run-IsValid (c ∷ cs) h v = run-IsValid cs (step c h) (step-IsValid c h v)

  -- From a new endpoint, any sequence of methods leaves at most one tombstone over the cap.
  pub spent_bounded :
      (ttl : ℤ) (cs : List (Call P)) → length (run cs (new ttl)).spent ≤ max_spent_tombstones + 1
  spent_bounded ttl cs = (run-IsValid cs (new ttl) start).bounded
    where
      start : IsValid (new ttl)
      start = unfold new in record { tracked = refl; bounded = omega arith }

  -- No call of the list mints the token.
  abbrev pub NoMint : String → List (Call P) → Type 0
  NoMint token [] = Unit
  NoMint token (mints now t p ∷ cs) = (t ≢ token) × NoMint token cs
  NoMint token (c ∷ cs) = NoMint token cs

  abbrev IsGone : String → Endpoint P → Type 0
  IsGone token h = lookup token h.items ≡ none

  mark_spent-IsGone :
      (token t : String) (at : ℕ) (h : Endpoint P)
      → IsGone token h
      → IsGone token (mark_spent t at h)
  unfolding mark_spent
  mark_spent-IsGone token t at h g = ground arith

  drop-IsGone :
      (token t : String) (at : ℕ) (h : Endpoint P)
      → IsGone token h
      → IsGone token (mark_spent t at (record h { items = delete t h.items }))
  drop-IsGone token t at h g =
      mark_spent-IsGone token t at (record h { items = delete t h.items })
        (ground (arith, lookup-delete t token h.items))

  dropped :
      (token : String) (at : ℕ) (h : Endpoint P)
      → IsGone token (mark_spent token at (record h { items = delete token h.items }))
  dropped token at h =
      mark_spent-IsGone token token at (record h { items = delete token h.items })
        (ground (arith, lookup-delete token token h.items))

  prune_items-IsGone :
      (token : String) (now : ℕ) (m : Dict (Item P)) (h : Endpoint P)
      → IsGone token h
      → IsGone token (prune_items now m h)
  unfolding prune_items
  prune_items-IsGone token now [] h g = g
  prune_items-IsGone token now ((t, item) ∷ m) h g = elim (Bool-cases (ltb item.expires_at now)) [
    | inl past ↦
        rw (past, prune_items)
          (prune_items-IsGone token now m (mark_spent t now (record h { items = delete t h.items }))
            (drop-IsGone token t now h g))
    | inr live ↦ rw (live, prune_items) (prune_items-IsGone token now m h g)
  ]

  -- Calls other than a mint of the token do not bring it back.
  step-IsGone :
      (token : String) (c : Call P) (h : Endpoint P)
      → NoMint token (c ∷ [])
      → IsGone token h
      → IsGone token (step c h)
  unfolding step mint resolve resolve_item prune_spent remove claim prune_expired
  step-IsGone token (mints now t p) h n g =
      ground
        (arith, lookup-insert t token (record { payload = p; expires_at = now + h.ttl }) h.items)
  step-IsGone token (resolves now t) h n g =
      ground (arith, drop-IsGone token t now (prune_spent h) g)
  step-IsGone token (removes now t) h n g = drop-IsGone token t now h g
  step-IsGone token (claims now t) h n g = ground (arith, drop-IsGone token t now h g)
  step-IsGone token (prunes now) h n g = prune_items-IsGone token now h.items h g

  run-IsGone :
      (token : String) (cs : List (Call P)) (h : Endpoint P)
      → NoMint token cs
      → IsGone token h
      → IsGone token (run cs h)
  unfolding run
  run-IsGone token [] h n g = g
  run-IsGone token (mints now t p ∷ cs) h n g =
      run-IsGone token cs _ n.1 (step-IsGone token (mints now t p) h (n.0, tt) g)
  run-IsGone token (resolves now t ∷ cs) h n g =
      run-IsGone token cs _ n (step-IsGone token (resolves now t) h tt g)
  run-IsGone token (removes now t ∷ cs) h n g =
      run-IsGone token cs _ n (step-IsGone token (removes now t) h tt g)
  run-IsGone token (claims now t ∷ cs) h n g =
      run-IsGone token cs _ n (step-IsGone token (claims now t) h tt g)
  run-IsGone token (prunes now ∷ cs) h n g =
      run-IsGone token cs _ n (step-IsGone token (prunes now) h tt g)

  -- A claim succeeds at most once for a token that is not minted again: after a claim that
  -- succeeded and any calls without a mint of the token, a claim fails and no visit finds an item.
  pub claim-once :
      (now later : ℕ) (token : String) (cs : List (Call P)) (item : Item P) (h : Endpoint P)
      → (claim now token h).0 ≡ true
      → NoMint token cs
      → ((claim later token (run cs (claim now token h).1)).0 ≡ false)
        × ((resolve later token (run cs (claim now token h).1)).0 ≢ active item)
  unfolding claim resolve resolve_item prune_spent
  claim-once now later token cs item h c n =
      let gone : IsGone token (run cs (claim now token h).1) =
        run-IsGone token cs (claim now token h).1 n (ground (arith, dropped token now h)) in
      (ground arith, λ e. ground arith)
