-- ===== src/Session/Async.antt =====
-- session/async.go: the store of async operation handles. The mutex makes each method one step; a
-- method takes the time that the store's clock shows during the call, `create` the random handle.
-- `D` is Go's `map[string]any`, and `none` is the nil map.
pub mod View
pub mod History
pub mod Capacity
use mcpplane.Common.{
  ℕ, ◌+◌, ◌*◌, String, Bool, Option, none, some, [], ltb, leb, if◌then◌else◌, length, Dict, lookup,
  insert, delete, sweep, ℤ, positive_or, minute,
}

-- DefaultSessionTTL
abbrev pub default_session_ttl : ℕ
default_session_ttl = 30 * minute

-- DefaultMaxSessions
abbrev pub default_max_sessions : ℕ
default_max_sessions = 100

pub record AsyncItem (D : Type 0) : Type 0 where
  pub status : String
  pub payload : Option D
  pub created_at : ℕ
  pub expires_at : ℕ

pub record AsyncHandleStore (D : Type 0) : Type 0 where
  pub items : Dict (AsyncItem D)
  pub ttl : ℕ
  pub max_len : ℕ

pub data HandleError : Type 0 where
  handle_not_found handle_expired : HandleError

pub data HandleResult (A : Type 0) : Type 0 where
  ok : A → HandleResult A
  err : HandleError → HandleResult A

-- if data != nil { it.data = data }
abbrev pub or_keep : {D : Type 0} → Option D → Option D → Option D
or_keep none old = old
or_keep (some d) old = some d

module _ {D : Type 0} where
  unfoldable pub new_async_handle_store : ℤ → ℤ → AsyncHandleStore D
  new_async_handle_store ttl max_len = record {
    items = [];
    ttl = positive_or ttl default_session_ttl;
    max_len = positive_or max_len default_max_sessions;
  }

  -- s.now().After(it.expiresAt)
  abbrev pub is_stale : ℕ → AsyncItem D → Bool
  is_stale now it = ltb it.expires_at now

  -- The loop that both ways to create a handle start with.
  unfoldable pub evict : ℕ → AsyncHandleStore D → Dict (AsyncItem D)
  evict now s = if leb s.max_len (length s.items) then sweep (is_stale now) s.items else s.items

  abbrev pub fresh_item : ℕ → String → Option D → AsyncHandleStore D → AsyncItem D
  fresh_item now status d s = record {
    status = status;
    payload = d;
    created_at = now;
    expires_at = now + s.ttl;
  }

  unfoldable pub create :
      ℕ → String → String → Option D → AsyncHandleStore D → String × AsyncHandleStore D
  create now id status d s =
      (id, record s { items = insert id (fresh_item now status d s) (evict now s) })

  -- `CreateWithID` on the entry found under the id.
  unfoldable pub create_over :
      Option (AsyncItem D)
      → ℕ
      → String
      → String
      → Option D
      → AsyncHandleStore D
      → String × AsyncHandleStore D
  create_over (some it) now id status d s = (
    id,
    record s {
      items =
          insert id
            (record it {
              status = status;
              payload = or_keep d it.payload;
              expires_at = now + s.ttl;
            })
            s.items;
    },
  )
  create_over none now id status d s =
      (id, record s { items = insert id (fresh_item now status d s) (evict now s) })

  unfoldable pub create_with_id :
      ℕ → String → String → Option D → AsyncHandleStore D → String × AsyncHandleStore D
  unfolding create_over
  create_with_id now id status d s = create_over (lookup id s.items) now id status d s

  unfoldable pub get :
      ℕ → String → AsyncHandleStore D → HandleResult (String × Option D) × AsyncHandleStore D
  get now id s = elim (lookup id s.items) [
    | none ↦ (err handle_not_found, s)
    | some it ↦
        if is_stale now it
        then (err handle_expired, record s { items = delete id s.items })
        else (ok (it.status, it.payload), s)
  ]

  unfoldable pub set :
      ℕ
      → String
      → String
      → Option D
      → AsyncHandleStore D
      → HandleResult (Unit {0}) × AsyncHandleStore D
  set now id status d s = elim (lookup id s.items) [
    | none ↦ (err handle_not_found, s)
    | some it ↦
        if is_stale now it then (err handle_expired, record s { items = delete id s.items }) else (
          ok tt,
          record s {
            items =
                insert id
                  (record it {
                    status = status;
                    payload = or_keep d it.payload;
                    expires_at = now + s.ttl;
                  })
                  s.items;
          },
        )
  ]

  unfoldable pub drop : String → AsyncHandleStore D → AsyncHandleStore D
  drop id s = record s { items = delete id s.items }
