-- ===== src/Common/Text.antt =====
-- Go strings as byte lists: comparison, slices and the functions of package strings that several
-- components use. ToLower and TrimSpace are those of ASCII text.
use mcpplane.Common.Tests.{leb, ◌==◌, if◌then◌else◌, Bool-cases, Option-cases}
use mcpplane.Common.Lists.{length, length-append}
use Prim.Native.Char.{code}
use Prim.Native.Nat.{ℕ, zero, suc, ◌+◌}
use Prim.Native.String.{String}
use mathlib.Core.Path.{◌≡◌, refl, ap, ◌∙◌}
use mathlib.Core.Logic.{inl, inr}
use mathlib.Core.Bool.{Bool, true, false, ◌&&◌, ◌||◌}
use mathlib.Core.Option.{Option, none, some}
use mathlib.Core.List.{List, [], ◌∷◌, ◌++◌, map}
use mathlib.Core.List.{reverse, reverse-cons}
use native.Mathlib.Omega.{arith}

abbrev pub Bytes : Type 0
Bytes = List ℕ

-- The bytes of a text, which are its code points where it is ASCII.
abbrev pub codes : String → Bytes
codes String.[] = []
codes (String.◌∷◌ c s) = code c ∷ codes s

abbrev pub bytes_eq : Bytes → Bytes → Bool
bytes_eq [] [] = true
bytes_eq (a ∷ s) (b ∷ t) = a == b && bytes_eq s t
bytes_eq s t = false

pub bytes_eq_self : (s : Bytes) → bytes_eq s s ≡ true
bytes_eq_self [] = refl
bytes_eq_self (a ∷ s) = ground (arith, bytes_eq_self s)

pub bytes_eq→≡ : (s t : Bytes) → bytes_eq s t ≡ true → s ≡ t
bytes_eq→≡ [] [] h = refl
bytes_eq→≡ (a ∷ s) (b ∷ t) h = ground (arith, bytes_eq→≡ s t)
bytes_eq→≡ s t h = cc

-- s[:n] and s[n:].
abbrev pub take : ℕ → Bytes → Bytes
take zero s = []
take (suc n) [] = []
take (suc n) (c ∷ s) = c ∷ take n s

abbrev pub drop : ℕ → Bytes → Bytes
drop zero s = s
drop (suc n) [] = []
drop (suc n) (c ∷ s) = drop n s

-- The rest after a prefix: HasPrefix and TrimPrefix.
unfoldable pub cut_prefix : Bytes → Bytes → Option Bytes
cut_prefix [] s = some s
cut_prefix (a ∷ p) [] = none
cut_prefix (a ∷ p) (b ∷ s) = if a == b then cut_prefix p s else none

abbrev pub cons_to : ℕ → Option Bytes → Option Bytes
cons_to c none = none
cons_to c (some s) = some (c ∷ s)

-- The rest before a suffix: HasSuffix and TrimSuffix.
unfoldable pub cut_suffix : Bytes → Bytes → Option Bytes
cut_suffix t [] = if bytes_eq [] t then some [] else none
cut_suffix t (c ∷ s) = if bytes_eq (c ∷ s) t then some [] else cons_to c (cut_suffix t s)

abbrev pub is_some {ℓ} : {A : Type ℓ} → Option A → Bool
is_some none = false
is_some (some a) = true

unfoldable pub to_lower : Bytes → Bytes
to_lower s = map (λ c. if leb 65 c && leb c 90 then c + 32 else c) s

abbrev pub is_space : ℕ → Bool
is_space c = c == 32 || leb 9 c && leb c 13

unfoldable pub trim_left : Bytes → Bytes
trim_left [] = []
trim_left (c ∷ s) = if is_space c then trim_left s else c ∷ s

abbrev pub cons_trimmed : ℕ → Bytes → Bytes
cons_trimmed c [] = if is_space c then [] else c ∷ []
cons_trimmed c (d ∷ s) = c ∷ d ∷ s

unfoldable pub trim_right : Bytes → Bytes
trim_right [] = []
trim_right (c ∷ s) = cons_trimmed c (trim_right s)

unfoldable pub trim_space : Bytes → Bytes
unfolding trim_left trim_right
trim_space s = trim_right (trim_left s)

-- strings.Contains for one byte.
unfoldable pub has_byte : ℕ → Bytes → Bool
has_byte b [] = false
has_byte b (c ∷ s) = if c == b then true else has_byte b s

pub cut_suffix-append : (t s r : Bytes) → cut_suffix t s ≡ some r → s ≡ r ++ t
unfolding cut_suffix
cut_suffix-append t [] r h = elim (Bool-cases (bytes_eq [] t)) [
  | inl e ↦ ground (arith, bytes_eq→≡ [] t)
  | inr e ↦ ground arith
]
cut_suffix-append t (c ∷ s) r h = elim (Bool-cases (bytes_eq (c ∷ s) t)) [
  | inl e ↦ ground (arith, bytes_eq→≡ (c ∷ s) t e)
  | inr e ↦ elim (Option-cases (cut_suffix t s)) [
    | inl f ↦ absurd (ground arith)
    | inr (r', f) ↦
        let q = cut_suffix-append t s r' f in
        let k : c ∷ r' ≡ r = ground arith in
        ap (λ (x : Bytes). c ∷ x) q ∙ ap (λ (x : Bytes). x ++ t) k
  ]
]

pub cut_suffix-append_self : (t r : Bytes) → cut_suffix t (r ++ t) ≡ some r
unfolding cut_suffix
cut_suffix-append_self [] [] = refl
cut_suffix-append_self (a ∷ t) [] = rw (bytes_eq_self (a ∷ t))
cut_suffix-append_self t (c ∷ r) =
    let longer : bytes_eq (c ∷ r ++ t) t ≡ true → ⊥ = λ e.
      (let q = ap length (bytes_eq→≡ (c ∷ r ++ t) t e) in
        absurd (omega (arith, length-append r t))) in
    ground (arith, longer, cut_suffix-append_self t r)

pub cut_prefix-append : (p s r : Bytes) → cut_prefix p s ≡ some r → s ≡ p ++ r
unfolding cut_prefix
cut_prefix-append [] s r h = ground arith
cut_prefix-append (a ∷ p) [] r h = cc
cut_prefix-append (a ∷ p) (b ∷ s) r h = ground (arith, cut_prefix-append p s r)

pub cut_prefix-append_self : (p r : Bytes) → cut_prefix p (p ++ r) ≡ some r
unfolding cut_prefix
cut_prefix-append_self [] r = refl
cut_prefix-append_self (a ∷ p) r = ground (arith, cut_prefix-append_self p r)

pub has_byte-append : (b : ℕ) (s t : Bytes) → has_byte b (s ++ t) ≡ (has_byte b s || has_byte b t)
unfolding has_byte
has_byte-append b [] t = refl
has_byte-append b (c ∷ s) t = ground (arith, has_byte-append b s t)

pub has_byte-reverse : (b : ℕ) (s : Bytes) → has_byte b s ≡ false → has_byte b (reverse s) ≡ false
unfolding has_byte
has_byte-reverse b [] h = refl
has_byte-reverse b (c ∷ s) h =
    ap (has_byte b) (reverse-cons c s)
    ∙ has_byte-append b (reverse s) (c ∷ [])
    ∙ ground (arith, has_byte-reverse b s)
