-- ===== src/Handoff/Registry/Bounds.antt =====
-- The size of the registry, and what an eviction takes.
use mcpplane.Common.{
  ℕ, ◌≤◌, ◌<◌, ◌≡◌, ◌≢◌, ◌⊎◌, inl, inr, refl, String, none, List, [], ◌∷◌, length, Dict, lookup,
  insert, delete, arith, Option-cases, str_eq_iff, length-insert, length-delete-lt,
  length-delete-le, length-sweep, lookup-insert, lookup-delete, lookup-sweep_absent,
}
use mcpplane.Session.Async.{default_max_sessions}
use mcpplane.Handoff.Registry.{
  RegistryEntry, HandoffRegistry, new_handoff_registry, is_lapsed, prune_entries, find_oldest,
  evict_oldest, begin, finish,
}

module _ {K : Type 0} where
  -- The search returns the handle it starts with, or one of the map.
  find_oldest-lookup :
      (o : String) (at : ℕ) (m : Dict (RegistryEntry K))
      → (find_oldest o at m ≡ o) ⊎ (lookup (find_oldest o at m) m ≢ none)
  unfolding find_oldest lookup
  find_oldest-lookup o at [] = inl refl
  find_oldest-lookup o at ((h, e) ∷ m) =
      ground (arith, find_oldest-lookup o at m, find_oldest-lookup h e.created_at m, str_eq_iff h h)

  -- A map with an entry and without the empty handle has an oldest handle.
  find_oldest-some :
      (o : String) (at : ℕ) (m : Dict (RegistryEntry K))
      → lookup "" m ≡ none
      → (o ≢ "") ⊎ (0 < length m)
      → find_oldest o at m ≢ ""
  unfolding find_oldest lookup
  find_oldest-some o at [] n h = ground arith
  find_oldest-some o at ((h, e) ∷ m) n k = ground (
    arith,
    find_oldest-some o at m,
    find_oldest-some h e.created_at m,
    str_eq_iff o "",
    str_eq_iff h "",
  )

  -- There is room for the new entry after the eviction.
  evict_oldest-length :
      (handle : String) (e : RegistryEntry K) (r : HandoffRegistry K)
      → lookup "" r.cont ≡ none
      → r.max_entries ≢ 0
      → length r.cont ≤ r.max_entries
      → length (insert handle e (evict_oldest handle r).1.cont) ≤ r.max_entries
  unfolding evict_oldest
  evict_oldest-length handle e r n p b =
      let oldest : String = find_oldest "" 0 r.cont in
      elim (Option-cases (lookup oldest r.cont)) [
        | inl q ↦ ground (
          arith,
          find_oldest-lookup "" 0 r.cont,
          find_oldest-some "" 0 r.cont n,
          length-insert handle e r.cont,
        )
        | inr (u, q) ↦ ground (
          arith,
          length-insert handle e r.cont,
          length-insert handle e (delete oldest r.cont),
          length-delete-lt oldest r.cont u q,
          find_oldest-some "" 0 r.cont n,
          str_eq_iff oldest handle,
          str_eq_iff oldest "",
        )
      ]

  evict_oldest-empty :
      (handle : String) (r : HandoffRegistry K)
      → lookup "" r.cont ≡ none
      → lookup "" (evict_oldest handle r).1.cont ≡ none
  unfolding evict_oldest
  evict_oldest-empty handle r n = ground (arith, lookup-delete (find_oldest "" 0 r.cont) "" r.cont)

  evict_oldest-settings :
      (handle : String) (r : HandoffRegistry K)
      → ((evict_oldest handle r).1.max_entries ≡ r.max_entries)
        × ((evict_oldest handle r).1.ttp ≡ r.ttp)
  unfolding evict_oldest
  evict_oldest-settings handle r = ground arith

  -- The registry is within its limit and has no entry under the empty handle.
  abbrev pub IsBounded : ℕ → HandoffRegistry K → Type 0
  IsBounded max r = (r.max_entries ≡ max) × (length r.cont ≤ max) × (lookup "" r.cont ≡ none)

  prune_entries-IsBounded :
      (max now : ℕ) (r : HandoffRegistry K)
      → IsBounded max r
      → IsBounded max (prune_entries now r).1
  unfolding prune_entries
  prune_entries-IsBounded max now r b = ground (
    arith,
    length-sweep (is_lapsed r.ttp now) r.cont,
    lookup-sweep_absent (is_lapsed r.ttp now) "" r.cont,
  )

  begin-IsBounded :
      (max now later : ℕ) (handle : String) (k : K) (r : HandoffRegistry K)
      → max ≢ 0
      → handle ≢ ""
      → IsBounded max r
      → IsBounded max (begin now later handle k r).1
  unfolding begin
  begin-IsBounded max now later handle k r p h b =
      let e : RegistryEntry K = record { created_at = later; cont = k } in
      let r' : HandoffRegistry K = (prune_entries now r).1 in
      ground (
        arith,
        prune_entries-IsBounded max now r b,
        evict_oldest-length handle e r',
        evict_oldest-empty handle r',
        evict_oldest-settings handle r',
        lookup-insert handle "" e (evict_oldest handle r').1.cont,
        str_eq_iff handle "",
      )

-- A call on a registry.
pub data Call (K : Type 0) : Type 0 where
  begins : ℕ → ℕ → String → K → Call K
  finishes : String → Call K
  prunes : ℕ → Call K

module _ {K : Type 0} where
  pub step : Call K → HandoffRegistry K → HandoffRegistry K
  step (begins now later handle k) r = (begin now later handle k r).1
  step (finishes handle) r = finish handle r
  step (prunes now) r = (prune_entries now r).1

  pub run : List (Call K) → HandoffRegistry K → HandoffRegistry K
  run [] r = r
  run (c ∷ cs) r = run cs (step c r)

  -- Every handle that a flow begins with is not the empty string.
  abbrev pub Named : List (Call K) → Type 0
  Named [] = Unit
  Named (begins now later handle k ∷ cs) = (handle ≢ "") × Named cs
  Named (c ∷ cs) = Named cs

  step-IsBounded :
      (max : ℕ) (c : Call K) (r : HandoffRegistry K)
      → max ≢ 0
      → Named (c ∷ [])
      → IsBounded max r
      → IsBounded max (step c r)
  unfolding step finish
  step-IsBounded max (begins now later handle k) r p n b =
      begin-IsBounded max now later handle k r p n.0 b
  step-IsBounded max (finishes handle) r p n b =
      ground (arith, length-delete-le handle r.cont, lookup-delete handle "" r.cont)
  step-IsBounded max (prunes now) r p n b = prune_entries-IsBounded max now r b

  run-IsBounded :
      (max : ℕ) (cs : List (Call K)) (r : HandoffRegistry K)
      → max ≢ 0
      → Named cs
      → IsBounded max r
      → IsBounded max (run cs r)
  unfolding run
  run-IsBounded max [] r p n b = b
  run-IsBounded max (begins now later handle k ∷ cs) r p n b =
      run-IsBounded max cs _ p n.1 (step-IsBounded max (begins now later handle k) r p (n.0, tt) b)
  run-IsBounded max (finishes handle ∷ cs) r p n b =
      run-IsBounded max cs _ p n (step-IsBounded max (finishes handle) r p tt b)
  run-IsBounded max (prunes now ∷ cs) r p n b =
      run-IsBounded max cs _ p n (step-IsBounded max (prunes now) r p tt b)

  -- A new registry never holds more continuations than its limit, after any sequence of Begin, End
  -- and Prune with any clock readings, if every flow begins with a handle that is not empty.
  pub run-length :
      (cs : List (Call K))
      → Named cs
      → length (run cs new_handoff_registry).cont ≤ default_max_sessions
  unfolding new_handoff_registry
  run-length cs n =
      (run-IsBounded default_max_sessions cs new_handoff_registry (λ e. ground arith) n
        (refl, omega arith, unfold lookup in refl)).1
