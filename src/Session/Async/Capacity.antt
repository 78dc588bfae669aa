-- ===== src/Session/Async/Capacity.antt =====
-- How many entries the handle store holds. A handle is never refused, so the store may pass its
-- limit, by live entries alone.
use mcpplane.Common.{
  ℕ, ◌+◌, ◌≤◌, ◌<◌, ◌≡◌, Option, String, leb, length, sweep, Entries, Entries-insert, length-insert,
  length-sweep, arith, true, Dict, [], ◌∷◌, ℤ, positive_or-pos,
}
use mcpplane.Session.Async.{
  AsyncItem, AsyncHandleStore, is_stale, evict, fresh_item, create, new_async_handle_store,
  default_session_ttl, default_max_sessions,
}

module _ {D : Type 0} where
  abbrev pub Live : ℕ → String → AsyncItem D → Type 0
  Live now k it = now ≤ it.expires_at

  sweep-Live : (now : ℕ) (m : Dict (AsyncItem D)) → Entries (Live now) (sweep (is_stale now) m)
  unfolding sweep
  sweep-Live now [] = tt
  sweep-Live now ((k, it) ∷ m) = ground (arith, sweep-Live now m)

  evict-Live :
      (now : ℕ) (s : AsyncHandleStore D)
      → s.max_len ≤ length s.items
      → Entries (Live now) (evict now s)
  unfolding evict
  evict-Live now s h =
      let full : leb s.max_len (length s.items) ≡ true = ground arith in
      rw full (sweep-Live now s.items)

  evict-length : (now : ℕ) (s : AsyncHandleStore D) → length (evict now s) ≤ length s.items
  unfolding evict
  evict-length now s = ground (arith, length-sweep (is_stale now) s.items)

  -- A handle created at or over the limit leaves the store with entries only that have not
  -- lapsed, and with at most one more than before.
  pub create-Live :
      (now : ℕ) (id status : String) (d : Option D) (s : AsyncHandleStore D)
      → s.max_len ≤ length s.items
      → Entries (Live now) (create now id status d s).1.items
        × (length (create now id status d s).1.items ≤ length s.items + 1)
  unfolding create
  create-Live now id status d s h = (
    Entries-insert (Live now) id (fresh_item now status d s) (evict now s) (evict-Live now s h)
        (omega arith),
    ground (arith, length-insert id (fresh_item now status d s) (evict now s), evict-length now s),
  )

-- The constructor never yields a store without room or without time.
pub new-positive :
    (D : Type 0) (ttl max_len : ℤ)
    → (0 < (new_async_handle_store {D = D} ttl max_len).ttl)
      × (0 < (new_async_handle_store {D = D} ttl max_len).max_len)
unfolding new_async_handle_store
new-positive D ttl max_len = (
  positive_or-pos ttl default_session_ttl (omega arith),
  positive_or-pos max_len default_max_sessions (omega arith),
)
