-- ===== src/Session/RequestState/Slices.antt =====
-- The byte strings of the request state: slices, equality, and the last index of a byte.
use mcpplane.Common.{
  ℕ, zero, suc, ◌+◌, ◌≤◌, ◌≡◌, ◌≢◌, refl, sym, ap, ◌∙◌, Bool, true, false, some, [], ◌∷◌, ◌++◌,
  length, length-append, arith, Bool-cases, inl, inr, Bytes, bytes_eq, take, drop, bytes_eq_self,
  bytes_eq→≡,
}
use mathlib.Core.Path.{subst}
use native.Mathlib.Nat.{add-suc, suc-add, add-zero, zero-add}
use mcpplane.Session.RequestState.{
  has_prefix, last_index_from, last_index_byte, request_state_prefix,
}

-- No byte of the string is `b`.
abbrev pub NoByte : ℕ → Bytes → Type 0
NoByte b [] = Unit
NoByte b (a ∷ s) = (a ≢ b) × NoByte b s

pub take-append : (s t : Bytes) → take (length s) (s ++ t) ≡ s
take-append [] t = refl
take-append (a ∷ s) t = ap (◌∷◌ a) (take-append s t)

pub drop-append : (s t : Bytes) (n : ℕ) → drop (length s + n) (s ++ t) ≡ drop n t
drop-append [] t n = rw zero-add
drop-append (a ∷ s) t n = rw suc-add (drop-append s t n)

pub take_all : (s : Bytes) → take (length s) s ≡ s
take_all [] = refl
take_all (a ∷ s) = ap (◌∷◌ a) (take_all s)

pub split_at : (n : ℕ) (s : Bytes) → take n s ++ drop n s ≡ s
split_at zero s = refl
split_at (suc n) [] = refl
split_at (suc n) (a ∷ s) = ap (◌∷◌ a) (split_at n s)

pub drop-suc : (n b : ℕ) (s : Bytes) → take 1 (drop n s) ≡ b ∷ [] → drop n s ≡ b ∷ drop (suc n) s
drop-suc zero b [] h = cc
drop-suc zero b (a ∷ s) h = cc
drop-suc (suc n) b [] h = cc
drop-suc (suc n) b (a ∷ s) h = drop-suc n b s h

-- The byte before the end of the scan is not `b`.
abbrev miss : ℕ → Bytes → ℕ → Bool
miss i s b = bytes_eq (take 1 (drop i s)) (b ∷ [])

NoByte-miss : (k b : ℕ) (t : Bytes) → NoByte b t → miss k t b ≡ false
NoByte-miss zero b [] h = refl
NoByte-miss zero b (a ∷ t) h = ground arith
NoByte-miss (suc k) b [] h = refl
NoByte-miss (suc k) b (a ∷ t) h = NoByte-miss k b t h.1

last_index_from-append :
    (s t : Bytes) (b k : ℕ)
    → NoByte b t
    → last_index_from (suc (length s + k)) (s ++ b ∷ t) b ≡ some (length s)
unfolding last_index_from
last_index_from-append s t b zero h =
    let hit : miss (length s) (s ++ b ∷ t) b ≡ true =
      rw (← add-zero (length s), drop-append) (bytes_eq_self (b ∷ [])) in
    rw (add-zero, hit) refl
last_index_from-append s t b (suc k) h =
    let missed : miss (length s + suc k) (s ++ b ∷ t) b ≡ false =
      rw drop-append (NoByte-miss k b t h) in
    rw missed (rw add-suc (last_index_from-append s t b k h))

-- The last index of a byte before a rest that has no such byte.
pub last_index_byte-append :
    (s t : Bytes) (b : ℕ) → NoByte b t → last_index_byte (s ++ b ∷ t) b ≡ some (length s)
unfolding last_index_byte
last_index_byte-append s t b h =
    rw (length-append, add-suc) (last_index_from-append s t b (length t) h)

last_index_from-hit :
    (n b d : ℕ) (s : Bytes) → last_index_from n s b ≡ some d → take 1 (drop d s) ≡ b ∷ []
unfolding last_index_from
last_index_from-hit zero b d s h = cc
last_index_from-hit (suc n) b d s h = elim (Bool-cases (miss n s b)) [
  | inl hit ↦
      let e : n ≡ d = ground arith in
      subst (λ k. take 1 (drop k s) ≡ b ∷ []) e (bytes_eq→≡ (take 1 (drop n s)) (b ∷ []) hit)
  | inr missed ↦ last_index_from-hit n b d s (rw missed at h)
]

-- Where the byte is found, the string is what stands before it, the byte, and what stands after.
pub last_index_byte-split :
    (s : Bytes) (b d : ℕ) → last_index_byte s b ≡ some d → s ≡ take d s ++ b ∷ drop (suc d) s
unfolding last_index_byte
last_index_byte-split s b d h =
    sym (split_at d s)
    ∙ ap (λ r. take d s ++ r) (drop-suc d b s (last_index_from-hit (length s) b d s h))

-- A string with the prefix begins with it.
pub has_prefix-split :
    (s : Bytes) → has_prefix s request_state_prefix ≡ true → s ≡ request_state_prefix ++ drop 3 s
unfolding has_prefix
has_prefix-split s h =
    let same : bytes_eq (take 3 s) request_state_prefix ≡ true = ground arith in
    sym (split_at 3 s) ∙ ap (λ r. r ++ drop 3 s) (bytes_eq→≡ (take 3 s) request_state_prefix same)

-- What a longer slice of a string with the prefix begins with.
pub take-prefix :
    (d : ℕ) (r : Bytes)
    → 3 ≤ d
    → take d (request_state_prefix ++ r)
      ≡ request_state_prefix ++ drop 3 (take d (request_state_prefix ++ r))
take-prefix zero r h = absurd (omega arith)
take-prefix (suc zero) r h = absurd (omega arith)
take-prefix (suc (suc zero)) r h = absurd (omega arith)
take-prefix (suc (suc (suc d))) r h = refl

pub has_prefix-append :
    (r : Bytes) → has_prefix (request_state_prefix ++ r) request_state_prefix ≡ true
unfolding has_prefix
has_prefix-append r = ground arith

-- A string with the prefix whose last dot stands behind it has three parts.
pub sealed_shape :
    (s : Bytes) (dot : ℕ)
    → has_prefix s request_state_prefix ≡ true
    → last_index_byte s b'.' ≡ some dot
    → 3 ≤ dot
    → s ≡ request_state_prefix ++ (drop 3 (take dot s) ++ b'.' ∷ drop (suc dot) s)
sealed_shape s dot pre e h =
    let front : take dot s ≡ request_state_prefix ++ drop 3 (take dot s) =
      subst (λ r. take dot r ≡ request_state_prefix ++ drop 3 (take dot r))
        (sym (has_prefix-split s pre)) (take-prefix dot (drop 3 s) h) in
    last_index_byte-split s b'.' dot e ∙ ap (λ q. q ++ b'.' ∷ drop (suc dot) s) front

pub drop-suc-append : (s t : Bytes) (b : ℕ) → drop (suc (length s)) (s ++ b ∷ t) ≡ t
drop-suc-append [] t b = refl
drop-suc-append (a ∷ s) t b = drop-suc-append s t b

pub bytes_eq-nil : (s : Bytes) → s ≢ [] → bytes_eq s [] ≡ false
bytes_eq-nil [] h = absurd (h refl)
bytes_eq-nil (a ∷ s) h = refl
