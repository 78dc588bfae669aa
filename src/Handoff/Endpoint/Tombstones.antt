-- ===== src/Handoff/Endpoint/Tombstones.antt =====
-- The tombstones of an endpoint: the eviction order lists exactly the spent links, so their number
-- stays bounded and the youngest survives.
use mcpplane.Common.{
  ℕ, ◌+◌, ◌≤◌, ◌≡◌, ◌≢◌, refl, ap, String, false, none, some, List, [], ◌∷◌, ◌++◌, ltb, length,
  Dict, lookup, insert, delete, lookup-insert, lookup-delete, Option-cases, Bool-cases, inl, inr,
  arith, length-insert,
}
use mcpplane.Handoff.Endpoint.{Endpoint, max_spent_tombstones, mark_spent, prune_order, prune_spent}

pub max_spent_pos : 1 ≤ max_spent_tombstones
unfolding max_spent_tombstones
max_spent_pos = omega arith

-- The order lists the keys of the tombstones, each once.
abbrev pub Tracks : List String → Dict ℕ → Type 0
Tracks [] spent = spent ≡ []
Tracks (k ∷ order) spent =
    ((at : ℕ) × (lookup k spent ≡ some at))
    × (length (delete k spent) + 1 ≡ length spent)
    × Tracks order (delete k spent)

delete-insert :
    (k j : String) (v : ℕ) (m : Dict ℕ) → k ≢ j → delete k (insert j v m) ≡ insert j v (delete k m)
unfolding delete insert
delete-insert k j v [] ne = ground arith
delete-insert k j v ((i, w) ∷ m) ne = ground (arith, delete-insert k j v m ne)

pub Tracks-mark :
    (order : List String) (spent : Dict ℕ) (token : String) (at : ℕ)
    → Tracks order spent
    → lookup token spent ≡ none
    → Tracks (order ++ token ∷ []) (insert token at spent)
unfolding lookup insert delete
Tracks-mark [] spent token at t h = rw t ((at, ground arith), ground arith, ground arith)
Tracks-mark (k ∷ order) spent token at ((v, e), n, t) h =
    let ne : k ≢ token = λ q. cc (q, e, h) in
    let absent : lookup token (delete k spent) ≡ none =
      ground (arith, lookup-delete k token spent) in
    (
      (v, ground (arith, lookup-insert token k at spent)),
      rw (delete-insert k token at spent ne)
          (ground (arith, length-insert token at spent, length-insert token at (delete k spent))),
      rw (delete-insert k token at spent ne) (Tracks-mark order (delete k spent) token at t absent),
    )

-- The loop ends within the cap, and what is left of the order lists what is left of the map.
pub prune_order-Tracks :
    (cap : ℕ) (order : List String) (spent : Dict ℕ)
    → Tracks order spent
    → Tracks (prune_order cap order spent).0 (prune_order cap order spent).1
      × (length (prune_order cap order spent).1 ≤ cap)
unfolding prune_order
prune_order-Tracks cap [] spent t = rw t (refl, omega arith)
prune_order-Tracks cap (k ∷ order) spent t = elim (Bool-cases (ltb cap (length spent))) [
  | inl over ↦ rw over (prune_order-Tracks cap order (delete k spent) t.2)
  | inr within ↦ rw within (t, ground arith)
]

Tracks-none :
    (order : List String) (spent : Dict ℕ) (token : String)
    → Tracks (order ++ token ∷ []) spent
    → (at : ℕ) × (lookup token spent ≡ some at)
unfolding lookup
Tracks-none [] spent token t = t.0
Tracks-none (k ∷ order) spent token t =
    let (at, e) = Tracks-none order (delete k spent) token t.2 in
    (at, ground (arith, lookup-delete k token spent))

-- The youngest tombstone outlives the loop.
pub prune_order-last :
    (cap : ℕ) (order : List String) (spent : Dict ℕ) (token : String)
    → 1 ≤ cap
    → Tracks (order ++ token ∷ []) spent
    → (at : ℕ) × (lookup token (prune_order cap (order ++ token ∷ []) spent).1 ≡ some at)
unfolding prune_order
prune_order-last cap [] spent token h t =
    let one : length spent ≡ 1 = omega (arith, t.1, ap length t.2) in
    let within : ltb cap (length spent) ≡ false = ground arith in rw within t.0
prune_order-last cap (k ∷ order) spent token h t = elim (Bool-cases (ltb cap (length spent))) [
  | inl over ↦ rw over (prune_order-last cap order (delete k spent) token h t.2)
  | inr within ↦ rw within (Tracks-none (k ∷ order) spent token t)
]

prune_order_within :
    (cap : ℕ) (order : List String) (spent : Dict ℕ)
    → length spent ≤ cap
    → prune_order cap order spent ≡ (order, spent)
unfolding prune_order
prune_order_within cap [] spent h = refl
prune_order_within cap (k ∷ order) spent h = ground arith

module _ {P : Type 0} where
  abbrev pub IsTracked : Endpoint P → Type 0
  IsTracked h = Tracks h.spent_order h.spent

  pub mark_spent_absent :
      (token : String) (at : ℕ) (h : Endpoint P)
      → lookup token h.spent ≡ none
      → mark_spent token at h
        ≡ record h { spent = insert token at h.spent; spent_order = h.spent_order ++ token ∷ [] }
  unfolding mark_spent
  mark_spent_absent token at h e = ground arith

  pub mark_spent_present :
      (token : String) (at v : ℕ) (h : Endpoint P)
      → lookup token h.spent ≡ some v
      → mark_spent token at h ≡ h
  unfolding mark_spent
  mark_spent_present token at v h e = ground arith

  pub mark_spent-IsTracked :
      (token : String) (at : ℕ) (h : Endpoint P) → IsTracked h → IsTracked (mark_spent token at h)
  mark_spent-IsTracked token at h t = elim (Option-cases (lookup token h.spent)) [
    | inl e ↦ rw (mark_spent_absent token at h e) (Tracks-mark h.spent_order h.spent token at t e)
    | inr (v, e) ↦ rw (mark_spent_present token at v h e) t
  ]

  pub mark_spent-length :
      (token : String) (at : ℕ) (h : Endpoint P)
      → length (mark_spent token at h).spent ≤ length h.spent + 1
  unfolding mark_spent
  mark_spent-length token at h = ground (arith, length-insert token at h.spent)

  pub prune_spent-IsTracked :
      (h : Endpoint P)
      → IsTracked h
      → IsTracked (prune_spent h) × (length (prune_spent h).spent ≤ max_spent_tombstones)
  unfolding prune_spent
  prune_spent-IsTracked h t = prune_order-Tracks max_spent_tombstones h.spent_order h.spent t

  -- A link that is marked and pruned at once has its tombstone afterwards.
  pub prune_spent-mark_spent :
      (token : String) (at : ℕ) (h : Endpoint P)
      → IsTracked h
      → lookup token h.spent ≡ none
      → (v : ℕ) × (lookup token (prune_spent (mark_spent token at h)).spent ≡ some v)
  unfolding prune_spent
  prune_spent-mark_spent token at h t e = rw (mark_spent_absent token at h e) (
      prune_order-last max_spent_tombstones h.spent_order (insert token at h.spent) token
        max_spent_pos (Tracks-mark h.spent_order h.spent token at t e))

  -- Within the cap there is nothing to evict.
  pub prune_spent_within :
      (h : Endpoint P) → length h.spent ≤ max_spent_tombstones → prune_spent h ≡ h
  unfolding prune_spent
  prune_spent_within h le =
      let e : prune_order max_spent_tombstones h.spent_order h.spent ≡ (h.spent_order, h.spent) =
        prune_order_within max_spent_tombstones h.spent_order h.spent le in
      ground (arith, e)
