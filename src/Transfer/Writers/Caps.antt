-- ===== src/Transfer/Writers/Caps.antt =====
-- What a program sends through the capped writer.
use mcpplane.Common.{
  ℕ, ◌+◌, ◌≡◌, ◌≤◌, ◌<◌, refl, ap, false, none, some, Option, List, [], ◌∷◌, ltb, if◌then◌else◌,
  length, Bytes, pos, arith, Bool-cases, inl, inr,
}
use mcpplane.Transfer.Writers.{
  StreamError, too_large, Source, done, write, exceeds, size_limited, copies,
}

-- The bytes that a program hands to a writer that takes all of them, and how the program ends.
pub received : Source → ℕ × Option StreamError
received (done e) = (0, e)
received (write p next) = let (n, e) = received (next (length p, none)) in (length p + n, e)

pub within : (max_bytes n : ℕ) → 0 < max_bytes → exceeds (pos max_bytes) n ≡ false → n ≤ max_bytes
unfolding exceeds
within max_bytes n m e = ground arith

received_le :
    (max_bytes written : ℕ) (src : Source)
    → 0 < max_bytes
    → written ≤ max_bytes
    → written + (received (size_limited (pos max_bytes) written src)).0 ≤ max_bytes
unfolding received size_limited
received_le max_bytes written (done e) m h = omega arith
received_le max_bytes written (write p next) m h =
    elim (Bool-cases (exceeds (pos max_bytes) (written + length p))) [
      | inl e ↦
          rw (e, if◌then◌else◌)
            (received_le max_bytes written (next (0, some (too_large (pos max_bytes)))) m h)
      | inr e ↦
          let l : written + length p ≤ max_bytes = within max_bytes (written + length p) m e in
          rw (e, if◌then◌else◌)
            (let r = received_le max_bytes (written + length p) (next (length p, none)) m l in
              omega arith)
    ]

-- However a program writes, and whatever it does about the errors, no more than the cap passes a
-- capped writer whose cap is positive.
pub received-size_limited :
    (max_bytes : ℕ) (src : Source)
    → 0 < max_bytes
    → (received (size_limited (pos max_bytes) 0 src)).0 ≤ max_bytes
received-size_limited max_bytes src m = omega (arith, received_le max_bytes 0 src m (omega arith))

-- The bytes of all chunks.
unfoldable pub total : List Bytes → ℕ
total [] = 0
total (p ∷ ps) = length p + total ps

copies_fit :
    (max_bytes written : ℕ) (ps : List Bytes)
    → written + total ps ≤ max_bytes
    → received (size_limited (pos max_bytes) written (copies ps)) ≡ (total ps, none)
unfolding received size_limited exceeds copies total
copies_fit max_bytes written [] h = refl
copies_fit max_bytes written (p ∷ ps) h =
    let e : exceeds (pos max_bytes) (written + length p) ≡ false = ground arith in
    rw (e, if◌then◌else◌) (rw (copies_fit max_bytes (written + length p) ps (omega arith)) refl)

copies_stop :
    (max_bytes written : ℕ) (ps : List Bytes)
    → 0 < max_bytes
    → written ≤ max_bytes
    → max_bytes < written + total ps
    → (received (size_limited (pos max_bytes) written (copies ps))).1
      ≡ some (too_large (pos max_bytes))
unfolding received size_limited copies total
copies_stop max_bytes written [] m l h = absurd (omega arith)
copies_stop max_bytes written (p ∷ ps) m l h =
    elim (Bool-cases (exceeds (pos max_bytes) (written + length p))) [
      | inl e ↦ rw (e, if◌then◌else◌)
      | inr e ↦
          let k : written + length p ≤ max_bytes = within max_bytes (written + length p) m e in
          rw (e, if◌then◌else◌) (copies_stop max_bytes (written + length p) ps m k (omega arith))
    ]

-- A copy of chunks through a capped writer is the copy of all of them if their bytes fit below the
-- cap, and otherwise ends with the error that download_too_large recognises.
pub copies-size_limited :
    (max_bytes : ℕ) (ps : List Bytes)
    → 0 < max_bytes
    → (received (size_limited (pos max_bytes) 0 (copies ps))).1
      ≡ (if ltb max_bytes (total ps) then some (too_large (pos max_bytes)) else none)
copies-size_limited max_bytes ps m = elim (Bool-cases (ltb max_bytes (total ps))) [
  | inl e ↦ rw (e, if◌then◌else◌) (copies_stop max_bytes 0 ps m (omega arith) (ground arith))
  | inr e ↦ rw (e, if◌then◌else◌) (ap (λ r. r.1) (copies_fit max_bytes 0 ps (ground arith)))
]
