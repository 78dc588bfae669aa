-- ===== src/Common/Maps.antt =====
-- A Go map with string keys, as an association list. `range` over the map visits the entries in the
-- order of the list, so a statement for every list is one for every order of iteration.
use mcpplane.Common.Tests.{if◌then◌else◌, str_eq, String-discrete}
use mcpplane.Common.Lists.{length}
use Prim.Native.Nat.{ℕ, ◌+◌, ◌≤◌}
use Prim.Native.String.{String}
use mathlib.Core.Path.{◌≡◌, refl, subst₂}
use mathlib.Core.Bool.{Bool, true, false}
use mathlib.Core.Option.{Option, none, some}
use mathlib.Core.List.{List, [], ◌∷◌}
use native.Mathlib.Omega.{arith}

abbrev pub Dict {ℓ} : Type ℓ → Type ℓ
Dict V = List (String × V)

module _ {ℓ} {V : Type ℓ} where
  -- v, ok := m[k]
  unfoldable pub lookup : String → Dict V → Option V
  lookup k [] = none
  lookup k ((j, v) ∷ m) = if str_eq j k then some v else lookup k m

  -- m[k] = v
  unfoldable pub insert : String → V → Dict V → Dict V
  insert k v [] = (k, v) ∷ []
  insert k v ((j, w) ∷ m) = if str_eq j k then (k, v) ∷ m else (j, w) ∷ insert k v m

  -- delete(m, k)
  unfoldable pub delete : String → Dict V → Dict V
  delete k [] = []
  delete k ((j, w) ∷ m) = if str_eq j k then delete k m else (j, w) ∷ delete k m

  -- for k, v := range m { if gone(k, v) { delete(m, k) } }
  unfoldable pub sweep : (V → Bool) → Dict V → Dict V
  sweep gone [] = []
  sweep gone ((j, w) ∷ m) = if gone w then sweep gone m else (j, w) ∷ sweep gone m

  -- No key occurs twice, as in every Go map.
  abbrev pub Distinct : Dict V → Type ℓ
  Distinct [] = Unit
  Distinct ((j, w) ∷ m) = (lookup j m ≡ none) × Distinct m

  pub lookup-insert :
      (k j : String) (v : V) (m : Dict V)
      → lookup j (insert k v m) ≡ (if str_eq k j then some v else lookup j m)
  unfolding lookup insert
  lookup-insert k j v [] = refl
  lookup-insert k j v ((i, w) ∷ m) = ground (arith, lookup-insert k j v m)

  pub lookup-delete :
      (k j : String) (m : Dict V)
      → lookup j (delete k m) ≡ (if str_eq k j then none else lookup j m)
  unfolding lookup delete
  lookup-delete k j [] = ground arith
  lookup-delete k j ((i, w) ∷ m) = ground (arith, lookup-delete k j m)

  -- The keys that the same loop deletes, in the order of its visits.
  unfoldable pub swept : (V → Bool) → Dict V → List String
  swept gone [] = []
  swept gone ((j, w) ∷ m) = if gone w then j ∷ swept gone m else swept gone m

  pub lookup-sweep_absent :
      (gone : V → Bool) (j : String) (m : Dict V)
      → lookup j m ≡ none
      → lookup j (sweep gone m) ≡ none
  unfolding lookup sweep
  lookup-sweep_absent gone j [] h = refl
  lookup-sweep_absent gone j ((i, w) ∷ m) h = ground (arith, lookup-sweep_absent gone j m)

  pub lookup-sweep :
      (gone : V → Bool) (j : String) (m : Dict V)
      → Distinct m
      → lookup j (sweep gone m)
        ≡ elim (lookup j m) [ none ↦ none | some v ↦ if gone v then none else some v ]
  unfolding lookup sweep
  lookup-sweep gone j [] d = refl
  lookup-sweep gone j ((i, w) ∷ m) d =
      ground (arith, lookup-sweep gone j m d.1, lookup-sweep_absent gone j m)

  pub insert-Distinct : (k : String) (v : V) (m : Dict V) → Distinct m → Distinct (insert k v m)
  unfolding insert lookup
  insert-Distinct k v [] d = (refl, tt)
  insert-Distinct k v ((i, w) ∷ m) d =
      ground (arith, insert-Distinct k v m d.1, lookup-insert k i v m)

  pub delete-Distinct : (k : String) (m : Dict V) → Distinct m → Distinct (delete k m)
  unfolding delete
  delete-Distinct k [] d = tt
  delete-Distinct k ((i, w) ∷ m) d = ground (arith, delete-Distinct k m d.1, lookup-delete k i m)

  pub sweep-Distinct : (gone : V → Bool) (m : Dict V) → Distinct m → Distinct (sweep gone m)
  unfolding sweep
  sweep-Distinct gone [] d = tt
  sweep-Distinct gone ((i, w) ∷ m) d =
      ground (arith, sweep-Distinct gone m d.1, lookup-sweep_absent gone i m)

  pub length-insert :
      (k : String) (v : V) (m : Dict V)
      → length (insert k v m) ≡ elim (lookup k m) [ none ↦ length m + 1 | some _ ↦ length m ]
  unfolding lookup insert
  length-insert k v [] = refl
  length-insert k v ((i, w) ∷ m) = ground (arith, length-insert k v m)

  pub length-delete-le : (k : String) (m : Dict V) → length (delete k m) ≤ length m
  unfolding delete
  length-delete-le k [] = omega arith
  length-delete-le k ((i, w) ∷ m) = ground (arith, length-delete-le k m)

  pub length-delete-lt :
      (k : String) (m : Dict V) (v : V) → lookup k m ≡ some v → length (delete k m) + 1 ≤ length m
  unfolding delete lookup
  length-delete-lt k [] v h = cc
  length-delete-lt k ((i, w) ∷ m) v h = ground (arith, length-delete-lt k m v, length-delete-le k m)

  -- Every entry that the loop keeps or deletes is counted once.
  pub length-sweep :
      (gone : V → Bool) (m : Dict V) → length (sweep gone m) + length (swept gone m) ≡ length m
  unfolding sweep swept
  length-sweep gone [] = refl
  length-sweep gone ((i, w) ∷ m) = ground (arith, length-sweep gone m)

  -- Every entry satisfies a predicate of its key and its value.
  abbrev pub Entries {κ} : (String → V → Type κ) → Dict V → Type κ
  Entries P [] = Unit
  Entries P ((j, w) ∷ m) = P j w × Entries P m

  pub Entries-lookup {κ} :
      (P : String → V → Type κ) (k : String) (v : V) (m : Dict V)
      → Entries P m
      → lookup k m ≡ some v
      → P k v
  unfolding lookup
  Entries-lookup P k v [] h e = absurd (none-ne-some e)
    where
      none-ne-some : {w : V} → none ≡ some w → ⊥
      none-ne-some q = cc
  Entries-lookup P k v ((i, w) ∷ m) h e = elim (String-discrete i k) [
    | yes p ↦ subst₂ P p (ground arith) h.0
    | no p ↦ Entries-lookup P k v m h.1 (ground arith)
  ]

  pub Entries-insert {κ} :
      (P : String → V → Type κ) (k : String) (v : V) (m : Dict V)
      → Entries P m
      → P k v
      → Entries P (insert k v m)
  unfolding insert
  Entries-insert P k v [] h p = (p, tt)
  Entries-insert P k v ((i, w) ∷ m) h p =
      elim (String-discrete i k)
        as (λ d. Entries P (
          if (elim d [ yes _ ↦ true | no _ ↦ false ]) then (k, v) ∷ m else (i, w) ∷ insert k v m)) [
            | yes _ ↦ (p, h.1)
            | no _ ↦ (h.0, Entries-insert P k v m h.1 p)
          ]

  pub Entries-delete {κ} :
      (P : String → V → Type κ) (k : String) (m : Dict V) → Entries P m → Entries P (delete k m)
  unfolding delete
  Entries-delete P k [] h = tt
  Entries-delete P k ((i, w) ∷ m) h =
      elim (String-discrete i k)
        as (λ d.
          Entries P (
            if (elim d [ yes _ ↦ true | no _ ↦ false ]) then delete k m else (i, w) ∷ delete k m)) [
              | yes _ ↦ Entries-delete P k m h.1
              | no _ ↦ (h.0, Entries-delete P k m h.1)
            ]

  pub Entries-sweep {κ} :
      (P : String → V → Type κ) (gone : V → Bool) (m : Dict V)
      → Entries P m
      → Entries P (sweep gone m)
  unfolding sweep
  Entries-sweep P gone [] h = tt
  Entries-sweep P gone ((i, w) ∷ m) h =
      elim (gone w) as (λ d. Entries P (if d then sweep gone m else (i, w) ∷ sweep gone m)) [
        | true ↦ Entries-sweep P gone m h.1
        | false ↦ (h.0, Entries-sweep P gone m h.1)
      ]

  -- The sum of a weight over the entries.
  unfoldable pub tally : (V → ℕ) → Dict V → ℕ
  tally w [] = 0
  tally w ((j, v) ∷ m) = w v + tally w m

  pub tally-insert :
      (w : V → ℕ) (k : String) (v : V) (m : Dict V)
      → tally w (insert k v m) + elim (lookup k m) [ none ↦ 0 | some u ↦ w u ] ≡ tally w m + w v
  unfolding tally insert lookup
  tally-insert w k v [] = omega arith
  tally-insert w k v ((i, u) ∷ m) = ground (arith, tally-insert w k v m)

  pub tally-delete-le : (w : V → ℕ) (k : String) (m : Dict V) → tally w (delete k m) ≤ tally w m
  unfolding tally delete
  tally-delete-le w k [] = omega arith
  tally-delete-le w k ((i, u) ∷ m) = ground (arith, tally-delete-le w k m)
