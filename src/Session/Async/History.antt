-- ===== src/Session/Async/History.antt =====
-- Histories of calls on the handle store, against a map that keeps everything and deletes only on
-- request: the store's eviction, its lazy deletion and its expiry check are one timed map.
use mcpplane.Common.{
  ℕ, ◌≤◌, ◌≡◌, refl, ◌∙◌, Option, none, some, String, ltb, List, [], ◌∷◌, if◌then◌else◌, str_eq,
  lookup, Distinct, insert-Distinct, delete-Distinct, sweep-Distinct, Option-cases, Bool-cases, inl,
  inr, ◌+◌, arith,
}
use mathlib.Core.Path.{subst}
use mcpplane.Session.Async.{
  AsyncItem, AsyncHandleStore, or_keep, is_stale, evict, fresh_item, create, create_with_id, get,
  set, drop,
}
use mcpplane.Session.Async.View.{
  shown, visible, get-visible, create-visible, set-visible, drop-visible, create_with_id-visible,
  create_with_id-renewed,
}
use mcpplane.Session.Async.{new_async_handle_store, default_session_ttl}
use mcpplane.Common.{ℤ, positive_or}

-- A call of a method, with the values that the caller or the random generator gives: CreateWithID with
-- a payload, and without one.
pub data Call (D : Type 0) : Type 0 where
  creates : String → String → Option D → Call D
  ensures : String → String → D → Call D
  renews : String → String → Call D
  gets : String → Call D
  sets : String → String → Option D → Call D
  drops : String → Call D

-- The map that forgets nothing by itself.
abbrev pub TimedMap : Type 0 → Type 0
TimedMap D = String → Option (AsyncItem D)

module _ {D : Type 0} where
  pub step : ℕ → Call D → AsyncHandleStore D → AsyncHandleStore D
  step now (creates id status d) s = (create now id status d s).1
  step now (ensures id status d) s = (create_with_id now id status (some d) s).1
  step now (renews id status) s = (create_with_id now id status none s).1
  step now (gets id) s = (get now id s).1
  step now (sets id status d) s = (set now id status d s).1
  step now (drops id) s = drop id s

  pub run : List (ℕ × Call D) → AsyncHandleStore D → AsyncHandleStore D
  run [] s = s
  run ((now, c) ∷ cs) s = run cs (step now c s)

  abbrev pub write : String → Option (AsyncItem D) → TimedMap D → TimedMap D
  write id v m j = if str_eq id j then v else m j

  abbrev pub entry : ℕ → String → Option D → ℕ → Option (AsyncItem D)
  entry now status d ttl =
      some (record { status = status; payload = d; created_at = now; expires_at = now + ttl })

  unfoldable pub spec_step : ℕ → ℕ → Call D → TimedMap D → TimedMap D
  spec_step ttl now (creates id status d) m = write id (entry now status d ttl) m
  spec_step ttl now (ensures id status d) m = write id (entry now status (some d) ttl) m
  spec_step ttl now (renews id status) m = elim (shown now (m id)) [
    | none ↦ m
    | some r ↦ write id (entry now status r.1 ttl) m
  ]
  spec_step ttl now (gets id) m = m
  spec_step ttl now (sets id status d) m = elim (shown now (m id)) [
    | none ↦ m
    | some r ↦ write id (entry now status (or_keep d r.1) ttl) m
  ]
  spec_step ttl now (drops id) m = write id none m

  pub spec_run : ℕ → List (ℕ × Call D) → TimedMap D → TimedMap D
  spec_run ttl [] m = m
  spec_run ttl ((now, c) ∷ cs) m = spec_run ttl cs (spec_step ttl now c m)

  -- The clock does not run backwards: each call reads a time no earlier than the one before.
  abbrev pub Ordered : ℕ → List (ℕ × Call D) → Type 0
  Ordered now [] = Unit
  Ordered now ((t, c) ∷ cs) = (now ≤ t) × Ordered t cs

  abbrev pub last_time : ℕ → List (ℕ × Call D) → ℕ
  last_time now [] = now
  last_time now ((t, c) ∷ cs) = last_time t cs

  -- What the history has to keep to: CreateWithID without a payload comes while its handle is live.
  abbrev pub IsLive : Option (String × Option D) → Type 0
  IsLive none = ⊥
  IsLive (some r) = Unit

  abbrev pub Admits : ℕ → Call D → TimedMap D → Type 0
  Admits now (renews id status) m = IsLive (shown now (m id))
  Admits now c m = Unit

  abbrev pub Renews : ℕ → List (ℕ × Call D) → TimedMap D → Type 0
  Renews ttl [] m = Unit
  Renews ttl ((t, c) ∷ cs) m = Admits t c m × Renews ttl cs (spec_step ttl t c m)

  -- From `now` on, the store shows what the map shows.
  abbrev pub Agrees : ℕ → AsyncHandleStore D → TimedMap D → Type 0
  Agrees now s m = (t : ℕ) (j : String) → now ≤ t → visible t s j ≡ shown t (m j)

  evict-Distinct : (now : ℕ) (s : AsyncHandleStore D) → Distinct s.items → Distinct (evict now s)
  unfolding evict
  evict-Distinct now s d = ground (arith, sweep-Distinct (is_stale now) s.items d)

  -- No method enters a key twice.
  pub step-Distinct :
      (now : ℕ) (c : Call D) (s : AsyncHandleStore D)
      → Distinct s.items
      → Distinct (step now c s).items
  unfolding step create create_with_id get set drop
  step-Distinct now (creates id status d) s u =
      insert-Distinct id (fresh_item now status d s) (evict now s) (evict-Distinct now s u)
  step-Distinct now (ensures id status d) s u = elim (Option-cases (lookup id s.items)) [
    | inl e ↦
        rw (e, Distinct)
          (insert-Distinct id (fresh_item now status (some d) s) (evict now s)
            (evict-Distinct now s u))
    | inr (it, e) ↦
        rw (e, Distinct)
          (insert-Distinct id
            (record it { status = status; payload = some d; expires_at = now + s.ttl }) s.items u)
  ]
  step-Distinct now (renews id status) s u = elim (Option-cases (lookup id s.items)) [
    | inl e ↦
        rw (e, Distinct)
          (insert-Distinct id (fresh_item now status none s) (evict now s) (evict-Distinct now s u))
    | inr (it, e) ↦
        rw (e, Distinct)
          (insert-Distinct id (record it { status = status; expires_at = now + s.ttl }) s.items u)
  ]
  step-Distinct now (gets id) s u = ground (arith, delete-Distinct id s.items u)
  step-Distinct now (sets id status d) s u = elim (Option-cases (lookup id s.items)) [
    | inl e ↦ rw (e, Distinct) u
    | inr (it, e) ↦
        rw (e, Distinct)
          (elim (Bool-cases (ltb it.expires_at now)) [
            | inl b ↦ rw (b, Distinct) (delete-Distinct id s.items u)
            | inr b ↦
                rw (b, Distinct)
                  (insert-Distinct id
                    (record it {
                      status = status;
                      payload = or_keep d it.payload;
                      expires_at = now + s.ttl;
                    })
                    s.items u)
          ])
  ]
  step-Distinct now (drops id) s u = delete-Distinct id s.items u

  step-ttl : (now : ℕ) (c : Call D) (s : AsyncHandleStore D) → (step now c s).ttl ≡ s.ttl
  unfolding step create create_with_id get set drop
  step-ttl now (creates id status d) s = refl
  step-ttl now (ensures id status d) s = ground arith
  step-ttl now (renews id status) s = ground arith
  step-ttl now (gets id) s = ground arith
  step-ttl now (sets id status d) s = ground arith
  step-ttl now (drops id) s = refl

  step-Agrees :
      (now : ℕ) (c : Call D) (s : AsyncHandleStore D) (m : TimedMap D)
      → Distinct s.items
      → Admits now c m
      → Agrees now s m
      → Agrees now (step now c s) (spec_step s.ttl now c m)
  unfolding step spec_step
  step-Agrees now (creates id status d) s m u l a t j h =
      ground (arith, create-visible now t id j status d s u h, a t j h)
  step-Agrees now (ensures id status d) s m u l a t j h =
      ground (arith, create_with_id-visible now t id j status d s u h, a t j h)
  step-Agrees now (renews id status) s m u l a t j h = elim (Option-cases (shown now (m id))) [
    | inl e ↦ absurd (ground arith)
    | inr (r, e) ↦
        let v = a now id (omega arith) ∙ e in
        ground (arith, create_with_id-renewed now t id j status r s h v, a t j h)
  ]
  step-Agrees now (gets id) s m u l a t j h = (get-visible now t id j s h).1 ∙ a t j h
  step-Agrees now (sets id status d) s m u l a t j h =
      ground (arith, set-visible now t id j status d s h, a t j h, a now id (omega arith))
  step-Agrees now (drops id) s m u l a t j h = ground (arith, drop-visible t id j s, a t j h)

  run-Agrees :
      (now : ℕ) (cs : List (ℕ × Call D)) (s : AsyncHandleStore D) (m : TimedMap D)
      → Distinct s.items
      → Agrees now s m
      → Ordered now cs
      → Renews s.ttl cs m
      → Agrees (last_time now cs) (run cs s) (spec_run s.ttl cs m)
  unfolding run spec_run
  run-Agrees now [] s m u a o l = a
  run-Agrees now ((t, c) ∷ cs) s m u a o l =
      subst
        (λ k. Agrees (last_time t cs) (run cs (step t c s)) (spec_run k cs (spec_step s.ttl t c m)))
        (step-ttl t c s)
        (run-Agrees t cs (step t c s) (spec_step s.ttl t c m) (step-Distinct t c s u)
          (step-Agrees t c s m u l.0 (λ t' j h. a t' j (omega arith))) o.1
          (rw (step-ttl t c s) l.1))

  -- After any history of calls in the order of time on a new handle store, in which a
  -- CreateWithID without data comes only while its handle is live, the store shows for every
  -- handle, at every time that is not before the last call, what a map that never evicts shows.
  pub run-visible :
      (ttl max_len : ℤ) (now t : ℕ) (j : String) (cs : List (ℕ × Call D))
      → Ordered now cs
      → Renews (positive_or ttl default_session_ttl) cs (λ k. none)
      → last_time now cs ≤ t
      → visible t (run cs (new_async_handle_store ttl max_len)) j
        ≡ shown t (spec_run (positive_or ttl default_session_ttl) cs (λ k. none) j)
  unfolding new_async_handle_store
  run-visible ttl max_len now t j cs o l h = new_agrees t j h
    where
      new_agrees :
          Agrees
            (last_time now cs)
            (run cs (new_async_handle_store ttl max_len))
            (spec_run (positive_or ttl default_session_ttl) cs (λ k. none))
      new_agrees =
          run-Agrees now cs (new_async_handle_store {D = D} ttl max_len) (λ k. none) tt
            (λ t' j' h'. unfold lookup in refl) o l
