-- ===== src/Session/Store/Capacity.antt =====
-- The bound on the number of wizard sessions, over every history of calls.
use mcpplane.Common.{
  ℕ, ℤ, pos, negsuc, true, ◌≤◌, ◌≡◌, ap, ◌∙◌, ◌↔◌, refl, some, String, List, [], ◌∷◌, length, sweep,
  length-insert, length-sweep, length-delete-le, arith,
}
use mcpplane.Session.Store.{
  StepDef, SessionStore, session_store_full, is_expired, new_session, evict, create, remove, get,
  cleanup, reaches, count, new_session_store_with_limits,
}

-- A call of a method of the store.
pub data Call (W F H C : Type 0) : Type 0 where
  creates : ℕ → ℕ → String → W → F → List (StepDef H C) → Call W F H C
  gets : ℕ → String → Call W F H C
  removes : String → Call W F H C
  cleanups : ℕ → Call W F H C

-- A limit below 0 admits as much as 0.
abbrev pub non_negative : ℤ → ℕ
non_negative (pos n) = n
non_negative (negsuc n) = 0

module _ {W F H C : Type 0} where
  -- The sessions that have not expired, by number.
  abbrev pub live_count : ℕ → SessionStore W F H C → ℕ
  live_count wall s = length (sweep (is_expired wall) s.sessions)

  -- `Create` refuses exactly when the sessions that have not expired fill the store.
  pub create-full_iff :
      (clock wall : ℕ) (id : String) (w : W) (f : F) (steps : List (StepDef H C))
      (s : SessionStore W F H C)
      → ((create clock wall id w f steps s).1 ≡ some session_store_full)
        ↔ (reaches (live_count wall s) s.max_sessions ≡ true)
  unfolding create evict
  create-full_iff clock wall id w f steps s = (
    λ e. ground (arith, length-sweep (is_expired wall) s.sessions),
    λ h. ground (arith, length-sweep (is_expired wall) s.sessions),
  )

  pub step : Call W F H C → SessionStore W F H C → SessionStore W F H C
  step (creates clock wall id w f steps) s = (create clock wall id w f steps s).2
  step (gets wall id) s = (get wall id s).1
  step (removes id) s = remove id s
  step (cleanups wall) s = (cleanup wall s).1

  pub run : List (Call W F H C) → SessionStore W F H C → SessionStore W F H C
  run [] s = s
  run (c ∷ cs) s = run cs (step c s)

  abbrev pub IsBounded : SessionStore W F H C → Type 0
  IsBounded s = count s ≤ non_negative s.max_sessions

  create-IsBounded :
      (clock wall : ℕ) (id : String) (w : W) (f : F) (steps : List (StepDef H C))
      (s : SessionStore W F H C)
      → IsBounded s
      → IsBounded (create clock wall id w f steps s).2
  unfolding create evict count
  create-IsBounded clock wall id w f steps s h = ground (
    arith,
    length-sweep (is_expired wall) s.sessions,
    length-insert id (new_session clock id w f steps s) s.sessions,
    length-insert id (new_session clock id w f steps s) (sweep (is_expired wall) s.sessions),
  )

  step-IsBounded :
      (c : Call W F H C) (s : SessionStore W F H C)
      → IsBounded s
      → IsBounded (step c s) × ((step c s).max_sessions ≡ s.max_sessions)
  unfolding step get remove cleanup count
  step-IsBounded (creates clock wall id w f steps) s h =
      (create-IsBounded clock wall id w f steps s h, unfold create in ground arith)
  step-IsBounded (gets wall id) s h = ground (arith, length-delete-le id s.sessions)
  step-IsBounded (removes id) s h = ground (arith, length-delete-le id s.sessions)
  step-IsBounded (cleanups wall) s h = ground (arith, length-sweep (is_expired wall) s.sessions)

  run-IsBounded :
      (cs : List (Call W F H C)) (s : SessionStore W F H C) → IsBounded s → IsBounded (run cs s)
  unfolding run
  run-IsBounded [] s h = h
  run-IsBounded (c ∷ cs) s h = run-IsBounded cs (step c s) (step-IsBounded c s h).0

  run-max :
      (cs : List (Call W F H C)) (s : SessionStore W F H C)
      → IsBounded s
      → (run cs s).max_sessions ≡ s.max_sessions
  unfolding run
  run-max [] s h = refl
  run-max (c ∷ cs) s h = run-max cs (step c s) (step-IsBounded c s h).0 ∙ (step-IsBounded c s h).1

  -- A session store made with a limit never holds more sessions than the limit, or any if it is
  -- negative, after any history of calls, with any clocks.
  pub run-bounded :
      (ttl max : ℤ) (cs : List (Call W F H C))
      → count (run cs (new_session_store_with_limits ttl max)) ≤ non_negative max
  unfolding new_session_store_with_limits count
  run-bounded ttl max cs =
      let s : SessionStore W F H C = new_session_store_with_limits ttl max in
      let h : IsBounded s = (unfold new_session_store_with_limits count in omega arith) in
      let e = ap non_negative (run-max cs s h) in omega (arith, run-IsBounded cs s h, e)
