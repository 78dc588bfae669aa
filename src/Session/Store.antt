-- ===== src/Session/Store.antt =====
-- session/session.go: wizard sessions and their store. The mutex makes each method one step. A
-- session's own expiry check reads the wall clock (time.Now) while the store stamps new sessions by
-- its clock field, so a method takes what it reads: `wall`, and `clock` where the store's is read.
-- The parameters are Go's opaque types: `W` the wizard state, `F` the state machine of looplab/fsm,
-- `H` the step handlers, `C` the schema functions. The random id is an argument.
pub mod Capacity
pub mod Expiry
use mcpplane.Common.{
  ℕ, suc, ◌+◌, ◌-◌, ◌*◌, ℤ, pos, negsuc, String, Bool, true, Option, none, some, List, [], ◌∷◌, ltb,
  leb, if◌then◌else◌, length, Dict, lookup, insert, delete, sweep, swept,
}
use mcpplane.Session.Async.{default_session_ttl, default_max_sessions}

pub record StepDef (H C : Type 0) : Type 0 where
  pub name : String
  pub event : String
  pub handler : Option H
  pub schema : Option C

pub record Session (W F H C : Type 0) : Type 0 where
  pub id : String
  pub created_at : ℕ
  pub expires_at : ℕ
  pub state : W
  pub fsm : F
  pub steps : List (StepDef H C)
  pub step_map : Dict (StepDef H C)

pub record SessionStore (W F H C : Type 0) : Type 0 where
  pub sessions : Dict (Session W F H C)
  pub ttl : ℤ
  pub max_sessions : ℤ

pub data SessionError : Type 0 where
  session_not_found session_expired session_store_full : SessionError

pub data Found (W F H C : Type 0) : Type 0 where
  found : Session W F H C → Found W F H C
  failed : SessionError → Found W F H C

-- The loop of `Create` that indexes the steps by name.
unfoldable pub index_steps :
    {H C : Type 0} → List (StepDef H C) → Dict (StepDef H C) → Dict (StepDef H C)
index_steps [] m = m
index_steps (step ∷ steps) m = index_steps steps (insert step.name step m)

-- now.Add(d): a moment before the epoch counts as the epoch.
abbrev pub add_duration : ℕ → ℤ → ℕ
add_duration now (pos d) = now + d
add_duration now (negsuc d) = now - suc d

-- len(s.sessions) >= max
abbrev pub reaches : ℕ → ℤ → Bool
reaches n (pos max) = leb max n
reaches n (negsuc max) = true

module _ {W F H C : Type 0} where
  unfoldable pub set_state : W → Session W F H C → Session W F H C
  set_state w s = record s { state = w }

  -- time.Now().After(s.ExpiresAt)
  abbrev pub is_expired : ℕ → Session W F H C → Bool
  is_expired wall s = ltb s.expires_at wall

  unfoldable pub touch : ℕ → ℤ → Session W F H C → Session W F H C
  touch wall ttl s = record s { expires_at = add_duration wall ttl }

  unfoldable pub new_session_store_with_limits : ℤ → ℤ → SessionStore W F H C
  new_session_store_with_limits ttl max = record { sessions = []; ttl = ttl; max_sessions = max }

  unfoldable pub new_session_store_with_ttl : ℤ → SessionStore W F H C
  new_session_store_with_ttl ttl = record {
    sessions = [];
    ttl = ttl;
    max_sessions = pos default_max_sessions;
  }

  unfoldable pub new_session_store : SessionStore W F H C
  new_session_store = record {
    sessions = [];
    ttl = pos default_session_ttl;
    max_sessions = pos default_max_sessions;
  }

  abbrev pub new_session :
      ℕ → String → W → F → List (StepDef H C) → SessionStore W F H C → Session W F H C
  new_session clock id state fsm steps s = record {
    id = id;
    created_at = clock;
    expires_at = add_duration clock s.ttl;
    state = state;
    fsm = fsm;
    steps = steps;
    step_map = index_steps steps [];
  }

  -- The eviction of `Create`.
  unfoldable pub evict : ℕ → SessionStore W F H C → Dict (Session W F H C)
  evict wall s =
      if reaches (length s.sessions) s.max_sessions
      then sweep (is_expired wall) s.sessions
      else s.sessions

  -- The session is returned in both cases.
  unfoldable pub create :
      ℕ
      → ℕ
      → String
      → W
      → F
      → List (StepDef H C)
      → SessionStore W F H C
      → Session W F H C × Option SessionError × SessionStore W F H C
  create clock wall id state fsm steps s =
      if reaches (length (evict wall s)) s.max_sessions
      then (
        new_session clock id state fsm steps s,
        some session_store_full,
        record s { sessions = evict wall s },
      )
      else (
        new_session clock id state fsm steps s,
        none,
        record s { sessions = insert id (new_session clock id state fsm steps s) (evict wall s) },
      )

  unfoldable pub remove : String → SessionStore W F H C → SessionStore W F H C
  remove id s = record s { sessions = delete id s.sessions }

  unfoldable pub get : ℕ → String → SessionStore W F H C → Found W F H C × SessionStore W F H C
  unfolding remove
  get wall id s = elim (lookup id s.sessions) [
    | none ↦ (failed session_not_found, s)
    | some sess ↦
        if is_expired wall sess then (failed session_expired, remove id s) else (found sess, s)
  ]

  unfoldable pub cleanup : ℕ → SessionStore W F H C → ℕ × SessionStore W F H C
  cleanup wall s = (
    length (swept (is_expired wall) s.sessions),
    record s { sessions = sweep (is_expired wall) s.sessions },
  )

  unfoldable pub count : SessionStore W F H C → ℕ
  count s = length s.sessions
