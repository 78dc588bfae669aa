-- ===== src/Handoff/Endpoint/OneTime.antt =====
-- The life of a link: it is active from its mint until it is used or lapses, and never again.
use mcpplane.Common.{
  ℕ, ◌+◌, ◌<◌, ◌≡◌, refl, ap, ◌∙◌, String, none, some, ltb, if◌then◌else◌, lookup, delete,
  lookup-insert, Option-cases, inl, inr, arith,
}
use mcpplane.Handoff.Endpoint.{
  Item, Endpoint, active, inactive, reason_expired, reason_used, mint, mark_spent, prune_spent,
  resolve_item, resolve, remove,
}
use mcpplane.Handoff.Endpoint.Tombstones.{
  IsTracked, prune_spent-mark_spent, mark_spent-IsTracked, prune_spent_within,
  prune_spent-IsTracked,
}

module _ {P : Type 0} where
  prune_spent-items : (h : Endpoint P) → (prune_spent h).items ≡ h.items
  unfolding prune_spent
  prune_spent-items h = refl

  prune_spent-mint :
      (now : ℕ) (token : String) (payload : P) (h : Endpoint P)
      → (prune_spent (mint now token payload h)).spent ≡ (prune_spent h).spent
  unfolding prune_spent mint
  prune_spent-mint now token payload h = refl

  mark_spent-items :
      (token : String) (at : ℕ) (h : Endpoint P) → (mark_spent token at h).items ≡ h.items
  unfolding mark_spent
  mark_spent-items token at h = ground arith

  -- What an answer of expiry says of the state.
  resolve-expired :
      (now : ℕ) (token : String) (h : Endpoint P)
      → (resolve now token h).0 ≡ inactive (some reason_expired)
      → (lookup token (prune_spent h).spent ≡ none)
        × (item : Item P) × (lookup token (prune_spent h).items ≡ some item)
        × (item.expires_at < now)
        × ((resolve now token h).1
            ≡ mark_spent token now
                (record (prune_spent h) { items = delete token (prune_spent h).items }))
  unfolding resolve resolve_item
  resolve-expired now token h e = elim (Option-cases (lookup token (prune_spent h).spent)) [
    | inr (v, p) ↦ absurd (ground arith)
    | inl absent ↦ elim (Option-cases (lookup token (prune_spent h).items)) [
      | inl p ↦ absurd (ground arith)
      | inr (item, p) ↦ (absent, item, p, ground arith, ground arith)
    ]
  ]

  -- After its mint a link without a tombstone resolves to its payload until its time has passed,
  -- and as expired then.
  pub resolve-mint :
      (now later : ℕ) (token : String) (payload : P) (h : Endpoint P)
      → lookup token (prune_spent h).spent ≡ none
      → (resolve later token (mint now token payload h)).0 ≡ (
          if ltb (now + h.ttl) later
          then inactive (some reason_expired)
          else active (record { payload = payload; expires_at = now + h.ttl }))
  unfolding resolve resolve_item mint
  resolve-mint now later token payload h e = ground (
    arith,
    prune_spent-mint now token payload h,
    lookup-insert token token (record { payload = payload; expires_at = now + h.ttl }) h.items,
  )

  resolve_spent :
      (now v : ℕ) (token : String) (h : Endpoint P)
      → lookup token (prune_spent h).spent ≡ some v
      → (resolve now token h).0 ≡ inactive (some reason_used)
  unfolding resolve resolve_item
  resolve_spent now v token h e = ground arith

  -- In an endpoint whose order lists its tombstones, a link without a tombstone that is removed
  -- resolves as used right afterwards, at any time.
  pub resolve-remove :
      (now later : ℕ) (token : String) (h : Endpoint P)
      → IsTracked h
      → lookup token h.spent ≡ none
      → (resolve later token (remove now token h)).0 ≡ inactive (some reason_used)
  unfolding remove
  resolve-remove now later token h t e =
      let g : Endpoint P = record h { items = delete token h.items } in
      let (v, kept) = prune_spent-mark_spent token now g t e in
      let (_, bound) =
        prune_spent-IsTracked (mark_spent token now g) (mark_spent-IsTracked token now g t) in
      resolve_spent later v token (prune_spent (mark_spent token now g)) (
        ap (λ (x : Endpoint P). lookup token x.spent)
          (prune_spent_within (prune_spent (mark_spent token now g)) bound)
        ∙ kept)

  -- In an endpoint whose order lists its tombstones, a link that is reported as expired to a
  -- visitor is reported as used to the next one, at any time.
  pub resolve-resolve_expired :
      (now later : ℕ) (token : String) (h : Endpoint P)
      → IsTracked h
      → (resolve now token h).0 ≡ inactive (some reason_expired)
      → (resolve later token (resolve now token h).1).0 ≡ inactive (some reason_used)
  resolve-resolve_expired now later token h t e =
      let (absent, item, _, _, after) = resolve-expired now token h e in
      let g : Endpoint P = record (prune_spent h) { items = delete token (prune_spent h).items } in
      let (v, kept) = prune_spent-mark_spent token now g (prune_spent-IsTracked h t).0 absent in
      rw after (resolve_spent later v token (mark_spent token now g) kept)
