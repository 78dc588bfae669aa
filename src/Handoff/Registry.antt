-- ===== src/Handoff/Registry.antt =====
-- handoff/handoff_registry.go: the registry of resume continuations, and the resume tool on it. The
-- lock makes a critical section one step, which reads the clock where the code does. Handles whose
-- flows are evicted are retired after the lock is released: `begin` and `prune` return them, and
-- `retire` is the loop that calls the cleanup, which the server sets to the handle store's Delete.
-- `D` is the data of a handle, `K` a continuation.
pub mod Bounds
pub mod Eviction
pub mod Resume
pub mod Dispatch
use mcpplane.Common.{
  ℕ, ◌+◌, ◌-◌, String, Bool, true, false, ◌&&◌, ◌||◌, Option, none, some, List, [], ◌∷◌, ◌++◌, ltb,
  leb, if◌then◌else◌, not, length, Dict, lookup, insert, delete, sweep, swept, str_eq,
}
use mcpplane.Session.Async.{
  AsyncHandleStore, HandleError, handle_not_found, handle_expired, HandleResult, ok, err,
  default_session_ttl, default_max_sessions,
}
use mcpplane.Session.Async

pub record RegistryEntry (K : Type 0) : Type 0 where
  pub created_at : ℕ
  pub cont : K

pub record HandoffRegistry (K : Type 0) : Type 0 where
  pub cont : Dict (RegistryEntry K)
  pub ttp : ℕ
  pub max_entries : ℕ

module _ {K : Type 0} where
  unfoldable pub new_handoff_registry : HandoffRegistry K
  new_handoff_registry = record {
    cont = [];
    ttp = default_session_ttl;
    max_entries = default_max_sessions;
  }

  -- now.Sub(e.createdAt) > r.ttp
  abbrev pub is_lapsed : ℕ → ℕ → RegistryEntry K → Bool
  is_lapsed ttp now e = ltb (e.created_at + ttp) now

  -- `pruneLocked`: the handles removed, and what is left.
  unfoldable pub prune_entries : ℕ → HandoffRegistry K → List String × HandoffRegistry K
  prune_entries now r =
      (swept (is_lapsed r.ttp now) r.cont, record r { cont = sweep (is_lapsed r.ttp now) r.cont })

  -- The loop of `Begin` that looks for the oldest entry.
  unfoldable pub find_oldest : String → ℕ → Dict (RegistryEntry K) → String
  find_oldest oldest at [] = oldest
  find_oldest oldest at ((h, e) ∷ m) =
      if str_eq oldest "" || ltb e.created_at at
      then find_oldest h e.created_at m
      else find_oldest oldest at m

  -- The eviction of `Begin`: the handle evicted, if one is, and the entries left.
  unfoldable pub evict_oldest : String → HandoffRegistry K → List String × HandoffRegistry K
  unfolding find_oldest
  evict_oldest handle r =
      let oldest : String = find_oldest "" 0 r.cont in
      if leb r.max_entries (length r.cont) && (not (str_eq oldest "") && not (str_eq oldest handle))
      then (oldest ∷ [], record r { cont = delete oldest r.cont })
      else ([], r)

  -- The section of `Begin` under the lock: the handles to retire, and the registry. The clock shows
  -- `now` for the pruning and `later` for the new entry.
  unfoldable pub begin : ℕ → ℕ → String → K → HandoffRegistry K → List String × HandoffRegistry K
  unfolding prune_entries evict_oldest
  begin now later handle k r =
      let (pruned, r') = prune_entries now r in
      let (evicted, r'') = evict_oldest handle r' in
      (
        evicted ++ pruned,
        record r'' { cont = insert handle (record { created_at = later; cont = k }) r''.cont },
      )

  unfoldable pub get : ℕ → String → HandoffRegistry K → Option K
  get now handle r = elim (lookup handle r.cont) [
    | none ↦ none
    | some e ↦ if is_lapsed r.ttp now e then none else some e.cont
  ]

  -- `End`.
  unfoldable pub finish : String → HandoffRegistry K → HandoffRegistry K
  finish handle r = record r { cont = delete handle r.cont }

-- The loop over the handles to retire, with the cleanup set to the store's Delete.
unfoldable pub retire : {D : Type 0} → List String → AsyncHandleStore D → AsyncHandleStore D
retire [] s = s
retire (h ∷ hs) s = retire hs (if str_eq h "" then s else Async.drop h s)

-- A registry with the store that backs its handles.
pub record Flows (D K : Type 0) : Type 0 where
  pub registry : HandoffRegistry K
  pub handles : AsyncHandleStore D

module _ {D K : Type 0} where
  -- `Begin` as a whole.
  unfoldable pub begin_flow : ℕ → ℕ → String → K → Flows D K → Flows D K
  unfolding begin retire
  begin_flow now later handle k s =
      let (retired, r) = begin now later handle k s.registry in
      record { registry = r; handles = retire retired s.handles }

  -- `Prune` as a whole.
  unfoldable pub prune_flows : ℕ → Flows D K → Flows D K
  unfolding prune_entries retire
  prune_flows now s =
      let (retired, r) = prune_entries now s.registry in
      record { registry = r; handles = retire retired s.handles }
