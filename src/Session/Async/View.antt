-- ===== src/Session/Async/View.antt =====
-- The handle store as a map whose entries lapse with time: what each method changes of what a later
-- `get` can see, with eviction and lazy deletion out of sight.
use mcpplane.Common.{
  ℕ, ◌+◌, ◌≤◌, ◌≡◌, Option, none, some, String, ltb, if◌then◌else◌, str_eq, Option-cases, inl, inr,
  lookup, Distinct, lookup-insert, lookup-delete, lookup-sweep, arith,
}
use mcpplane.Session.Async.{
  AsyncItem, AsyncHandleStore, HandleResult, ok, err, or_keep, is_stale, evict, fresh_item, create,
  create_with_id, get, set, drop,
}

module _ {D : Type 0} where
  -- What an entry shows at a time.
  abbrev pub shown : ℕ → Option (AsyncItem D) → Option (String × Option D)
  shown t none = none
  shown t (some it) = if is_stale t it then none else some (it.status, it.payload)

  -- The handle as a `get` at time `t` would see it.
  abbrev pub visible : ℕ → AsyncHandleStore D → String → Option (String × Option D)
  visible t s id = shown t (lookup id s.items)

  abbrev pub answer : HandleResult (String × Option D) → Option (String × Option D)
  answer (ok r) = some r
  answer (err e) = none

  lookup-evict :
      (now t : ℕ) (id : String) (s : AsyncHandleStore D)
      → Distinct s.items
      → now ≤ t
      → shown t (lookup id (evict now s)) ≡ visible t s id
  unfolding evict
  lookup-evict now t id s d h = ground (arith, lookup-sweep (is_stale now) id s.items d)

  -- Get answers what is visible at its time, and no Get at a time that is not earlier can tell
  -- that it was called.
  pub get-visible :
      (now t : ℕ) (id j : String) (s : AsyncHandleStore D)
      → now ≤ t
      → (answer (get now id s).0 ≡ visible now s id)
        × (visible t (get now id s).1 j ≡ visible t s j)
  unfolding get
  get-visible now t id j s h = ground (arith, lookup-delete id j s.items)

  -- In a store with distinct handles, Create shows the new handle until its time to live has
  -- passed, and hides no other handle, at any time from the call on.
  pub create-visible :
      (now t : ℕ) (id j status : String) (d : Option D) (s : AsyncHandleStore D)
      → Distinct s.items
      → now ≤ t
      → visible t (create now id status d s).1 j ≡ (
          if str_eq id j
          then (if ltb (now + s.ttl) t then none else some (status, d))
          else visible t s j)
  unfolding create
  create-visible now t id j status d s u h = ground (
    arith,
    lookup-insert id j (fresh_item now status d s) (evict now s),
    lookup-evict now t j s u h,
  )

  -- `set` on a visible handle renews it with its new status, keeps the payload unless one is given,
  -- and touches no other handle; on a handle that is not visible it is an error without effect.
  pub set-visible :
      (now t : ℕ) (id j status : String) (d : Option D) (s : AsyncHandleStore D)
      → now ≤ t
      → visible t (set now id status d s).1 j ≡ (
          if str_eq id j
          then elim (visible now s id) [
            | none ↦ visible t s j
            | some r ↦ if ltb (now + s.ttl) t then none else some (status, or_keep d r.1)
          ]
          else visible t s j)
  unfolding set
  set-visible now t id j status d s h = elim (Option-cases (lookup id s.items)) [
    | inl absent ↦ rw (absent, set) (ground arith)
    | inr (it, present) ↦ ground (
      arith,
      lookup-delete id j s.items,
      lookup-insert id j
          (record it { status = status; payload = or_keep d it.payload; expires_at = now + s.ttl })
          s.items,
    )
  ]

  pub drop-visible :
      (t : ℕ) (id j : String) (s : AsyncHandleStore D)
      → visible t (drop id s) j ≡ (if str_eq id j then none else visible t s j)
  unfolding drop
  drop-visible t id j s = ground (arith, lookup-delete id j s.items)

  -- In a store with distinct handles, CreateWithID with a payload shows the handle with its new
  -- status and payload until its time to live has passed, whether or not the handle was there,
  -- and hides no other handle.
  pub create_with_id-visible :
      (now t : ℕ) (id j status : String) (d : D) (s : AsyncHandleStore D)
      → Distinct s.items
      → now ≤ t
      → visible t (create_with_id now id status (some d) s).1 j ≡ (
          if str_eq id j
          then (if ltb (now + s.ttl) t then none else some (status, some d))
          else visible t s j)
  unfolding create_with_id
  create_with_id-visible now t id j status d s u h = elim (Option-cases (lookup id s.items)) [
    | inl absent ↦
        rw (absent, create_with_id)
          (ground (
            arith,
            lookup-insert id j (fresh_item now status (some d) s) (evict now s),
            lookup-evict now t j s u h,
          ))
    | inr (it, present) ↦
        rw (present, create_with_id)
          (ground (
            arith,
            lookup-insert id j
                (record it { status = status; payload = some d; expires_at = now + s.ttl }) s.items,
          ))
  ]

  -- CreateWithID without a payload, on a handle that is visible, renews it with its new status and
  -- keeps its payload, and hides no other handle.
  pub create_with_id-renewed :
      (now t : ℕ) (id j status : String) (r : String × Option D) (s : AsyncHandleStore D)
      → now ≤ t
      → visible now s id ≡ some r
      → visible t (create_with_id now id status none s).1 j ≡ (
          if str_eq id j
          then (if ltb (now + s.ttl) t then none else some (status, r.1))
          else visible t s j)
  unfolding create_with_id
  create_with_id-renewed now t id j status r s h v = elim (Option-cases (lookup id s.items)) [
    | inl absent ↦ absurd (ground arith)
    | inr (it, present) ↦
        rw (present, create_with_id)
          (ground (
            arith,
            lookup-insert id j (record it { status = status; expires_at = now + s.ttl }) s.items,
          ))
  ]
