-- ===== src/Ieo/Relay/Names.antt =====
-- The names of files that the validator accepts.
use mcpplane.Common.{
  ℕ, ◌≡◌, ◌≢◌, refl, sym, ap, ◌∙◌, Bool, true, false, ◌&&◌, not, [], ◌∷◌, Bytes, codes, bytes_eq,
  has_byte, arith, Bool-cases, inl, inr, bytes_eq→≡, bytes_eq_self, has_byte-reverse,
}
use mathlib.Core.List.{reverse}
use mcpplane.Ieo.Relay.{skip_slashes, until_slash, base, valid_file_name}

has_byte-until_slash : (s : Bytes) → has_byte b'/' (until_slash s) ≡ false
unfolding has_byte
has_byte-until_slash [] = refl
has_byte-until_slash (c ∷ s) = ground (arith, has_byte-until_slash s)

-- A last element is the root or has no separator.
pub base_plain : (name : Bytes) → base name ≢ codes "/" → has_byte b'/' (base name) ≡ false
unfolding base has_byte
base_plain [] n = refl
base_plain (c ∷ s) n =
    let last = reverse (until_slash (skip_slashes (reverse (c ∷ s)))) in
    let p =
      has_byte-reverse b'/' (until_slash (skip_slashes (reverse (c ∷ s))))
        (has_byte-until_slash (skip_slashes (reverse (c ∷ s)))) in
    elim (Bool-cases (bytes_eq last [])) [
      | inl e ↦ absurd (n (rw (e, base)))
      | inr e ↦ rw (e, base) p
    ]

differs : (name t : Bytes) → base name ≡ name → bytes_eq (base name) t ≡ false → name ≢ t
differs name t e h q =
    let x : bytes_eq (base name) t ≡ true = ap (λ s. bytes_eq s t) (e ∙ q) ∙ bytes_eq_self t in
    absurd (ground arith)

checks_of :
    (c : ℕ) (s : Bytes)
    → valid_file_name (c ∷ s) ≡ true
    → (bytes_eq (base (c ∷ s)) (c ∷ s) ≡ true)
      × (bytes_eq (base (c ∷ s)) (codes ".") ≡ false)
      × (bytes_eq (base (c ∷ s)) (codes "..") ≡ false)
unfolding valid_file_name
checks_of c s h =
    three (bytes_eq (base (c ∷ s)) (c ∷ s)) (bytes_eq (base (c ∷ s)) (codes "."))
      (bytes_eq (base (c ∷ s)) (codes "..")) h
  where
    three : (x y z : Bool) → (x && not y && not z) ≡ true → (x ≡ true) × (y ≡ false) × (z ≡ false)
    three x y z h = ground arith

-- A name that is accepted has no path separator and is neither "." nor "..", but for the name "/".
pub valid_file_name-plain :
    (name : Bytes)
    → valid_file_name name ≡ true
    → name ≢ codes "/"
    → (has_byte b'/' name ≡ false) × (name ≢ codes ".") × (name ≢ codes "..")
unfolding has_byte
valid_file_name-plain [] h n = (refl, λ q. cc, λ q. cc)
valid_file_name-plain (c ∷ s) h n =
    let (a, b, d) = checks_of c s h in
    let e : base (c ∷ s) ≡ c ∷ s = bytes_eq→≡ (base (c ∷ s)) (c ∷ s) a in
    (
      ap (has_byte b'/') (sym e) ∙ base_plain (c ∷ s) (λ q. n (sym e ∙ q)),
      differs (c ∷ s) (codes ".") e b,
      differs (c ∷ s) (codes "..") e d,
    )
