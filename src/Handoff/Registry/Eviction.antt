-- ===== src/Handoff/Registry/Eviction.antt =====
-- What Begin evicts, and which backing handles it retires.
use mcpplane.Common.{
  ℕ, ◌+◌, ◌≤◌, ◌<◌, ◌≡◌, ◌≢◌, refl, String, Bool, false, ◌||◌, none, some, List, [], ◌∷◌, ◌++◌, ltb,
  if◌then◌else◌, Dict, lookup, swept, str_eq, arith, str_eq_iff, lookup-insert, lookup-delete,
  lookup-sweep, Distinct,
}
use mcpplane.Session.Async.{AsyncHandleStore}
use mcpplane.Session.Async
use mcpplane.Handoff.Registry.{
  RegistryEntry, HandoffRegistry, is_lapsed, prune_entries, find_oldest, evict_oldest, begin, get,
  retire, Flows, begin_flow,
}

-- The handle is in the list.
pub listed : String → List String → Bool
listed h [] = false
listed h (x ∷ xs) = str_eq x h || listed h xs

listed-append :
    (h : String) (xs ys : List String) → listed h (xs ++ ys) ≡ (listed h xs || listed h ys)
unfolding listed
listed-append h [] ys = refl
listed-append h (x ∷ xs) ys = ground (arith, listed-append h xs ys)

lookup-retire :
    {D : Type 0} (h : String) (hs : List String) (s : AsyncHandleStore D)
    → h ≢ ""
    → lookup h (retire hs s).items ≡ (if listed h hs then none else lookup h s.items)
unfolding listed retire Async.drop
lookup-retire h [] s n = refl
lookup-retire h (x ∷ xs) s n = ground (
  arith,
  lookup-retire h xs s n,
  lookup-retire h xs (Async.drop x s) n,
  lookup-delete x h s.items,
  str_eq_iff x h,
  str_eq_iff x "",
)

module _ {K : Type 0} where
  listed-swept_absent :
      (gone : RegistryEntry K → Bool) (h : String) (m : Dict (RegistryEntry K))
      → lookup h m ≡ none
      → listed h (swept gone m) ≡ false
  unfolding listed swept lookup
  listed-swept_absent gone h [] e = refl
  listed-swept_absent gone h ((j, v) ∷ m) e = ground (arith, listed-swept_absent gone h m)

  listed-swept :
      (gone : RegistryEntry K → Bool) (h : String) (m : Dict (RegistryEntry K))
      → Distinct m
      → listed h (swept gone m) ≡ elim (lookup h m) [ none ↦ false | some e ↦ gone e ]
  unfolding listed swept lookup
  listed-swept gone h [] d = refl
  listed-swept gone h ((j, v) ∷ m) d =
      ground (arith, listed-swept gone h m d.1, listed-swept_absent gone h m)

  -- The eviction takes one handle out of the map and returns it, and that is another one than the
  -- handle that begins.
  lookup-evict_oldest :
      (handle h : String) (r : HandoffRegistry K)
      → lookup h (evict_oldest handle r).1.cont
        ≡ (if listed h (evict_oldest handle r).0 then none else lookup h r.cont)
  unfolding evict_oldest listed
  lookup-evict_oldest handle h r = ground (arith, lookup-delete (find_oldest "" 0 r.cont) h r.cont)

  pub evict_oldest-listed :
      (handle : String) (r : HandoffRegistry K) → listed handle (evict_oldest handle r).0 ≡ false
  unfolding evict_oldest listed
  evict_oldest-listed handle r = ground (arith, str_eq_iff (find_oldest "" 0 r.cont) handle)

  evict_oldest-ttp :
      (handle : String) (r : HandoffRegistry K) → (evict_oldest handle r).1.ttp ≡ r.ttp
  unfolding evict_oldest
  evict_oldest-ttp handle r = ground arith

  -- After a Begin, a Get of the handle finds the new continuation until its time has passed.
  pub get-begin :
      (now later t : ℕ) (handle : String) (k : K) (r : HandoffRegistry K)
      → get t handle (begin now later handle k r).1
        ≡ (if ltb (later + r.ttp) t then none else some k)
  unfolding get begin prune_entries
  get-begin now later t handle k r =
      let r' : HandoffRegistry K = (prune_entries now r).1 in
      ground (
        arith,
        evict_oldest-ttp handle r',
        lookup-insert handle handle (record { created_at = later; cont = k })
            (evict_oldest handle r').1.cont,
      )

  pub listed-begin :
      (now later : ℕ) (handle h : String) (k : K) (r : HandoffRegistry K)
      → Distinct r.cont
      → listed h (begin now later handle k r).0 ≡ (
          listed h (evict_oldest handle (prune_entries now r).1).0
          || elim (lookup h r.cont) [ none ↦ false | some e ↦ is_lapsed r.ttp now e ])
  unfolding begin prune_entries
  listed-begin now later handle h k r d = ground (
    arith,
    listed-append h (evict_oldest handle (prune_entries now r).1).0
        (swept (is_lapsed r.ttp now) r.cont),
    listed-swept (is_lapsed r.ttp now) h r.cont d,
  )

module _ {D K : Type 0} where
  pub handles-begin_flow :
      (now later : ℕ) (handle h : String) (k : K) (s : Flows D K)
      → h ≢ ""
      → lookup h (begin_flow now later handle k s).handles.items ≡ (
          if listed h (begin now later handle k s.registry).0
          then none
          else lookup h s.handles.items)
  unfolding begin_flow
  handles-begin_flow now later handle h k s n =
      lookup-retire h (begin now later handle k s.registry).0 s.handles n

  -- In a registry with distinct handles, a Begin of another flow deletes a flow's backing handle
  -- from the store if it drops the flow's continuation, and leaves it as it is otherwise, for a
  -- handle that is not empty.
  pub begin_flow-retires :
      (now later : ℕ) (handle h : String) (k : K) (e : RegistryEntry K) (s : Flows D K)
      → Distinct s.registry.cont
      → h ≢ ""
      → h ≢ handle
      → lookup h s.registry.cont ≡ some e
      → lookup h (begin_flow now later handle k s).handles.items
        ≡ elim (lookup h (begin_flow now later handle k s).registry.cont) [
          | none ↦ none
          | some _ ↦ lookup h s.handles.items
        ]
  unfolding begin_flow begin prune_entries
  begin_flow-retires now later handle h k e s d n m q =
      let r : HandoffRegistry K = s.registry in
      let r' : HandoffRegistry K = (prune_entries now r).1 in
      ground (
        arith,
        handles-begin_flow now later handle h k s n,
        listed-begin now later handle h k r d,
        lookup-evict_oldest handle h r',
        lookup-sweep (is_lapsed r.ttp now) h r.cont d,
        lookup-insert handle h (record { created_at = later; cont = k })
            (evict_oldest handle r').1.cont,
        str_eq_iff handle h,
      )

  -- In a registry with distinct handles, a Begin under a handle, not empty, whose earlier
  -- continuation has lapsed registers the new continuation, which Get finds until its time has
  -- passed, and deletes the handle's backing entry in the store.
  pub begin_flow-lapsed :
      (now later t : ℕ) (handle : String) (k : K) (e : RegistryEntry K) (s : Flows D K)
      → Distinct s.registry.cont
      → handle ≢ ""
      → lookup handle s.registry.cont ≡ some e
      → e.created_at + s.registry.ttp < now
      → t ≤ later + s.registry.ttp
      → (get t handle (begin_flow now later handle k s).registry ≡ some k)
        × (lookup handle (begin_flow now later handle k s).handles.items ≡ none)
  unfolding begin_flow
  begin_flow-lapsed now later t handle k e s d n q l u = (
    ground (arith, get-begin now later t handle k s.registry),
    ground (
      arith,
      handles-begin_flow now later handle handle k s n,
      listed-begin now later handle handle k s.registry d,
    ),
  )
