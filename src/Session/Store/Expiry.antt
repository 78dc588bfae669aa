-- ===== src/Session/Store/Expiry.antt =====
-- Which sessions the store's methods find, keep and drop.
use mcpplane.Common.{
  str_eq, ◌&&◌, str_eq_iff, ℕ, ◌+◌, ◌≤◌, ◌≡◌, ◌≢◌, Option, none, some, String, List, ltb, length,
  Distinct, lookup-sweep, lookup-insert, lookup-delete, length-sweep, lookup, arith, if◌then◌else◌,
  false,
}
use mcpplane.Session.Store.{
  StepDef, Session, SessionStore, Found, found, failed, session_not_found, session_expired,
  add_duration, is_expired, new_session, evict, create, get, cleanup,
}

module _ {W F H C : Type 0} where
  -- What `Get` would answer.
  abbrev pub live : ℕ → Option (Session W F H C) → Found W F H C
  live wall none = failed session_not_found
  live wall (some sess) = if is_expired wall sess then failed session_expired else found sess

  lookup-evict :
      (wall : ℕ) (j : String) (s : SessionStore W F H C)
      → Distinct s.sessions
      → (sess : Session W F H C) → is_expired wall sess ≡ false
      → lookup j s.sessions ≡ some sess
      → lookup j (evict wall s) ≡ some sess
  unfolding evict
  lookup-evict wall j s u sess fresh e =
      ground (arith, lookup-sweep (is_expired wall) j s.sessions u)

  -- In a store with distinct ids, Create drops no session that has not expired under an id other
  -- than its own, whether or not it reports the store full.
  pub create-keeps :
      (clock wall : ℕ) (id j : String) (w : W) (f : F) (steps : List (StepDef H C))
      (s : SessionStore W F H C) (sess : Session W F H C)
      → Distinct s.sessions
      → id ≢ j
      → wall ≤ sess.expires_at
      → lookup j s.sessions ≡ some sess
      → lookup j (create clock wall id w f steps s).2.sessions ≡ some sess
  unfolding create
  create-keeps clock wall id j w f steps s sess u ne h e = ground (
    arith,
    lookup-evict wall j s u sess,
    lookup-insert id j (new_session clock id w f steps s) (evict wall s),
  )

  -- When `Create` succeeds, a `Get` of the new id finds the new session while the wall clock is at
  -- most the store's clock at creation plus the time to live, and reports it expired after that.
  pub get-create :
      (clock wall later : ℕ) (id : String) (w : W) (f : F) (steps : List (StepDef H C))
      (s : SessionStore W F H C)
      → (create clock wall id w f steps s).1 ≡ none
      → (get later id (create clock wall id w f steps s).2).0 ≡ (
          if ltb (add_duration clock s.ttl) later
          then failed session_expired
          else found (create clock wall id w f steps s).0)
  unfolding create get
  get-create clock wall later id w f steps s ok =
      ground (arith, lookup-insert id id (new_session clock id w f steps s) (evict wall s))

  -- `Get` answers by the entry's presence and expiry; an expired session is gone afterwards, and
  -- every other entry stays as it was.
  pub get-lookup :
      (wall : ℕ) (id j : String) (s : SessionStore W F H C)
      → ((get wall id s).0 ≡ live wall (lookup id s.sessions))
        × (lookup j (get wall id s).1.sessions ≡ elim (lookup j s.sessions) [
          | none ↦ none
          | some sess ↦ if str_eq id j && is_expired wall sess then none else some sess
        ])
  unfolding get
  get-lookup wall id j s =
      (ground arith, ground (arith, lookup-delete id j s.sessions, str_eq_iff id j))

  -- In a store with distinct ids, Cleanup keeps exactly the sessions that have not expired, and
  -- returns how many it removed.
  pub cleanup-exact :
      (wall : ℕ) (j : String) (s : SessionStore W F H C)
      → Distinct s.sessions
      → (lookup j (cleanup wall s).1.sessions ≡ elim (lookup j s.sessions) [
        | none ↦ none
        | some sess ↦ if is_expired wall sess then none else some sess
      ])
        × (length (cleanup wall s).1.sessions + (cleanup wall s).0 ≡ length s.sessions)
  unfolding cleanup
  cleanup-exact wall j s u =
      (lookup-sweep (is_expired wall) j s.sessions u, length-sweep (is_expired wall) s.sessions)
