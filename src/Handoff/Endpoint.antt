-- ===== src/Handoff/Endpoint.antt =====
-- handoff/handoff.go: the one-time links of an endpoint. The mutex makes each method one step; a
-- method takes the time of the endpoint's clock. `P` is the payload of a hand-off. `spent` and
-- `spent_order` are the tombstones of used and expired links and the order of their eviction.
pub mod Tombstones
pub mod OneTime
pub mod History
use mcpplane.Common.{
  ℕ, zero, suc, ◌+◌, ◌-◌, ◌*◌, String, Bool, true, false, Option, none, some, List, [], ◌∷◌, ◌++◌,
  ltb, if◌then◌else◌, length, Dict, lookup, insert, delete, ℤ, positive_or, minute,
}

-- DefaultHandoffTTL
abbrev pub default_handoff_ttl : ℕ
default_handoff_ttl = 30 * minute

-- MaxSpentTombstones
pub max_spent_tombstones : ℕ
max_spent_tombstones = 10000

pub record Item (P : Type 0) : Type 0 where
  pub payload : P
  pub expires_at : ℕ

pub record Endpoint (P : Type 0) : Type 0 where
  pub items : Dict (Item P)
  pub spent : Dict ℕ
  pub spent_order : List String
  pub ttl : ℕ

-- NotActiveReason; the empty reason is `none`.
pub data NotActiveReason : Type 0 where
  reason_expired reason_used : NotActiveReason

-- A nil map entry or an item, with the reason.
pub data Resolved (P : Type 0) : Type 0 where
  active : Item P → Resolved P
  inactive : Option NotActiveReason → Resolved P

-- The loop of `pruneSpentLocked` over the FIFO: it stops at the cap or at the end.
unfoldable pub prune_order : ℕ → List String → Dict ℕ → List String × Dict ℕ
prune_order cap [] spent = ([], spent)
prune_order cap (oldest ∷ order) spent =
    let rest = prune_order cap order (delete oldest spent) in
    if ltb cap (length spent) then rest else (oldest ∷ order, spent)

module _ {P : Type 0} where
  unfoldable pub new : ℤ → Endpoint P
  new ttl = record {
    items = [];
    spent = [];
    spent_order = [];
    ttl = positive_or ttl default_handoff_ttl;
  }

  -- The registration of `Mint`, once the listener runs; the token is random.
  unfoldable pub mint : ℕ → String → P → Endpoint P → Endpoint P
  mint now token payload h = record h {
    items = insert token (record { payload = payload; expires_at = now + h.ttl }) h.items;
  }

  unfoldable pub mark_spent : String → ℕ → Endpoint P → Endpoint P
  mark_spent token at h = elim (lookup token h.spent) [
    | some _ ↦ h
    | none ↦ record h { spent = insert token at h.spent; spent_order = h.spent_order ++ token ∷ [] }
  ]

  unfoldable pub prune_spent : Endpoint P → Endpoint P
  unfolding prune_order
  prune_spent h =
      let (order, spent) = prune_order max_spent_tombstones h.spent_order h.spent in
      record h { spent = spent; spent_order = order }

  -- `Resolve` after its prune.
  unfoldable pub resolve_item : ℕ → String → Endpoint P → Resolved P × Endpoint P
  unfolding mark_spent
  resolve_item now token h = elim (lookup token h.spent) [
    | some _ ↦ (inactive (some reason_used), h)
    | none ↦ elim (lookup token h.items) [
      | none ↦ (inactive none, h)
      | some item ↦
          if ltb item.expires_at now
          then (
            inactive (some reason_expired),
            mark_spent token now (record h { items = delete token h.items }),
          )
          else (active item, h)
    ]
  ]

  unfoldable pub resolve : ℕ → String → Endpoint P → Resolved P × Endpoint P
  unfolding prune_spent resolve_item
  resolve now token h = resolve_item now token (prune_spent h)

  -- delete, mark and prune, as `Remove` and `Claim` do.
  unfoldable pub remove : ℕ → String → Endpoint P → Endpoint P
  unfolding mark_spent prune_spent
  remove now token h =
      prune_spent (mark_spent token now (record h { items = delete token h.items }))

  unfoldable pub claim : ℕ → String → Endpoint P → Bool × Endpoint P
  unfolding mark_spent prune_spent
  claim now token h = elim (lookup token h.items) [
    | none ↦ (false, h)
    | some _ ↦
        (true, prune_spent (mark_spent token now (record h { items = delete token h.items })))
  ]

  -- The loop of `pruneExpired` over the entries of the map.
  unfoldable pub prune_items : ℕ → Dict (Item P) → Endpoint P → Endpoint P
  unfolding mark_spent
  prune_items now [] h = h
  prune_items now ((token, item) ∷ rest) h = prune_items now rest (
      if ltb item.expires_at now
      then mark_spent token now (record h { items = delete token h.items })
      else h)

  unfoldable pub prune_expired : ℕ → Endpoint P → Endpoint P
  unfolding prune_items prune_spent
  prune_expired now h = prune_spent (prune_items now h.items h)

  unfoldable pub count : ℕ → Endpoint P → ℕ × Endpoint P
  unfolding prune_expired
  count now h = let h' : Endpoint P = prune_expired now h in (length h'.items, h')

-- The method of a request.
pub data Method : Type 0 where
  get post other : Method

-- What is answered: the handler's own page, the page of an inactive link, or an HTTP error.
pub data Response : Type 0 where
  rendered posted not_found forbidden method_not_allowed : Response
  spent_page : NotActiveReason → Response

-- What a coordinator supplies. It may call the endpoint's methods while it renders or consumes.
pub record Handler (P : Type 0) : Type 0 where
  pub render_get : String → Item P → Endpoint P → Endpoint P
  pub consume_on_get : Bool
  pub consume_post : String → Item P → Endpoint P → Bool × Endpoint P

module _ {P : Type 0} (handler : Handler P) where
  abbrev remove_if : Bool → ℕ → String → Endpoint P → Endpoint P
  remove_if true later token h = remove later token h
  remove_if false later token h = h

  -- The `switch` on the method, for a link that is active; `same` is the origin check.
  unfoldable pub dispatch : Method → Bool → ℕ → String → Item P → Endpoint P → Response × Endpoint P
  dispatch get same later token item h =
      (rendered, remove_if handler.consume_on_get later token (handler.render_get token item h))
  dispatch post false later token item h = (forbidden, h)
  dispatch post true later token item h =
      let (consumed, h') = handler.consume_post token item h in
      (posted, remove_if consumed later token h')
  dispatch other same later token item h = (method_not_allowed, h)

  abbrev handle_resolved :
      Resolved P → Method → Bool → ℕ → String → Endpoint P → Response × Endpoint P
  handle_resolved (active item) method same later token h = dispatch method same later token item h
  handle_resolved (inactive (some reason)) method same later token h = (spent_page reason, h)
  handle_resolved (inactive none) method same later token h = (not_found, h)

  -- The clock shows `now` when the link is resolved and `later` when it is removed.
  unfoldable pub handle : Method → Bool → ℕ → ℕ → String → Endpoint P → Response × Endpoint P
  unfolding dispatch
  handle method same now later token h =
      let (r, h') = resolve now token h in handle_resolved r method same later token h'
