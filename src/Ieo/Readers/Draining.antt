-- ===== src/Ieo/Readers/Draining.antt =====
-- io.ReadAll of the bounded readers over bytes in memory.
use mcpplane.Common.{
  ℕ, zero, suc, ◌+◌, ◌-◌, ◌≡◌, ◌≤◌, ◌<◌, refl, sym, ap, ◌∙◌, true, false, [], ◌∷◌, ◌++◌, Option,
  none, some, ltb, ◌==◌, if◌then◌else◌, length, length-append, Bytes, take, drop, arith, Bool-cases,
  inl, inr,
}
use mathlib.Core.Path.{subst}
use mcpplane.Ieo.Readers.{
  ReadError, eof, file_too_large, Limited, clip, is_eof, read_limited, read_all, memory,
  continue_read,
}

pub take-drop : (n : ℕ) (s : Bytes) → take n s ++ drop n s ≡ s
take-drop zero s = refl
take-drop (suc n) [] = refl
take-drop (suc n) (c ∷ s) = ap (λ (t : Bytes). c ∷ t) (take-drop n s)

length-drop_lt : (n c : ℕ) (s : Bytes) → length (drop (suc n) (c ∷ s)) ≤ length s
length-drop_lt n c s = length-drop_le n s
  where
    length-drop_le : (n : ℕ) (s : Bytes) → length (drop n s) ≤ length s
    length-drop_le zero s = omega arith
    length-drop_le (suc n) [] = omega arith
    length-drop_le (suc n) (c ∷ s) = omega (arith, length-drop_le n s)

length-take-drop : (n : ℕ) (s : Bytes) → length (take n s) + length (drop n s) ≡ length s
length-take-drop n s = sym (length-append (take n s) (drop n s)) ∙ ap length (take-drop n s)

length-take_le : (n : ℕ) (s : Bytes) → length (take n s) ≤ n
length-take_le zero s = omega arith
length-take_le (suc n) [] = omega arith
length-take_le (suc n) (c ∷ s) = omega (arith, length-take_le n s)

take-take-drop :
    (q limit : ℕ) (s : Bytes)
    → q ≤ limit
    → take q s ++ take (limit - length (take q s)) (drop q s) ≡ take limit s
take-take-drop zero limit s h = let e : limit - 0 ≡ limit = omega arith in rw e
take-take-drop (suc q) zero s h = absurd (omega arith)
take-take-drop (suc q) (suc limit) [] h = take_nil (suc limit - 0)
  where
    take_nil : (n : ℕ) → take n [] ≡ []
    take_nil zero = refl
    take_nil (suc n) = refl
take-take-drop (suc q) (suc limit) (c ∷ s) h =
    let e : suc limit - suc (length (take q s)) ≡ limit - length (take q s) = omega arith in
    rw e (ap (λ (t : Bytes). c ∷ t) (take-take-drop q limit s (omega arith)))

module _ {S : Type 0} (fuel k : ℕ) (read : ℕ → S → (Bytes × Option ReadError) × S) (s s' : S) where
  pub read_all_more :
      (p t : Bytes) (e : Option ReadError)
      → read k s ≡ ((p, none), s')
      → read_all fuel k read s' ≡ some (t, e)
      → read_all (suc fuel) k read s ≡ some (p ++ t, e)
  unfolding read_all
  read_all_more p t e q h =
      ap (λ x. continue_read x.0 (read_all fuel k read x.1)) q ∙ ap (continue_read (p, none)) h

  pub read_all_end :
      (p : Bytes) (x : ReadError)
      → read k s ≡ ((p, some x), s')
      → read_all (suc fuel) k read s ≡ some (p, if is_eof (some x) then none else some x)
  unfolding read_all
  read_all_end p x q = ap (λ r. continue_read r.0 (read_all fuel k read r.1)) q

-- What a drained limited reader gives: all bytes, or those below the limit and an error.
abbrev pub drained : ℕ → Bytes → Bytes × Option ReadError
drained limit s = if ltb limit (length s) then (take limit s, some file_too_large) else (s, none)

drained_more :
    (q limit : ℕ) (s : Bytes)
    → q ≤ limit
    → (let r = drained (limit - length (take q s)) (drop q s) in (take q s ++ r.0, r.1))
      ≡ drained limit s
drained_more q limit s h =
    let a = length-take-drop q s in
    let b = length-take_le q s in
    elim (Bool-cases (ltb limit (length s))) [
      | inl e ↦
          let f : ltb (limit - length (take q s)) (length (drop q s)) ≡ true = ground arith in
          rw (e, f, if◌then◌else◌) (ap (λ t. (t, some file_too_large)) (take-take-drop q limit s h))
      | inr e ↦
          let f : ltb (limit - length (take q s)) (length (drop q s)) ≡ false = ground arith in
          rw (e, f, if◌then◌else◌) (ap (λ t. (t, none)) (take-drop q s))
    ]

abbrev limited : Bytes → ℕ → Limited Bytes
limited s limit = record { inner = s; remaining = limit }

limited_end :
    (k limit : ℕ) → read_limited memory k (limited [] limit) ≡ (([], some eof), limited [] limit)
unfolding read_limited
limited_end k zero = refl
limited_end k (suc m) =
    let e : (suc m == 0) ≡ false = ground arith in
    let z : suc m - 0 ≡ suc m = omega arith in
    rw (e, if◌then◌else◌) (ap (λ n. (([], some eof), limited [] n)) z)

limited_over :
    (k c : ℕ) (t : Bytes)
    → read_limited memory k (limited (c ∷ t) 0) ≡ (([], some file_too_large), limited t 0)
unfolding read_limited
limited_over k c t = refl

limited_part :
    (k m c : ℕ) (t : Bytes)
    → read_limited memory k (limited (c ∷ t) (suc m)) ≡ (
      (take (clip k (suc m)) (c ∷ t), none),
      limited (drop (clip k (suc m)) (c ∷ t)) (suc m - length (take (clip k (suc m)) (c ∷ t))),
    )
unfolding read_limited
limited_part k m c t = let e : (suc m == 0) ≡ false = ground arith in rw (e, if◌then◌else◌)

-- Draining a limited reader over bytes in memory, with any buffer that is not empty, ends within
-- one Read more than there are bytes; it gives all of them if they are within the limit, and
-- otherwise those below the limit and the error for a file that is too large.
pub read_all-read_limited :
    (fuel k limit : ℕ) (s : Bytes)
    → 0 < k
    → length s < fuel
    → read_all fuel k (read_limited memory) (record { inner = s; remaining = limit })
      ≡ some (drained limit s)
read_all-read_limited zero k limit s h f = absurd (omega arith)
read_all-read_limited (suc fuel) k limit [] h f =
    let e : ltb limit 0 ≡ false = ground arith in
    read_all_end fuel k (read_limited memory) (limited [] limit) (limited [] limit) [] eof
      (limited_end k limit)
    ∙ sym (rw (e, if◌then◌else◌))
read_all-read_limited (suc fuel) k zero (c ∷ t) h f =
    let e : ltb 0 (suc (length t)) ≡ true = ground arith in
    read_all_end fuel k (read_limited memory) (limited (c ∷ t) 0) (limited t 0) [] file_too_large
      (limited_over k c t)
    ∙ sym (rw (e, if◌then◌else◌))
read_all-read_limited (suc fuel) k (suc m) (c ∷ t) h f =
    let q : ℕ = clip k (suc m) in
    let q' : suc (q - 1) ≡ q = ground arith in
    let p : Bytes = take q (c ∷ t) in
    let rest : Bytes = drop q (c ∷ t) in
    let shorter : length rest ≤ length t =
      subst (λ n. length (drop n (c ∷ t)) ≤ length t) q' (length-drop_lt (q - 1) c t) in
    let r = drained (suc m - length p) rest in
    read_all_more fuel k (read_limited memory) (limited (c ∷ t) (suc m))
      (limited rest (suc m - length p)) p r.0 r.1 (limited_part k m c t)
      (read_all-read_limited fuel k (suc m - length p) rest h (omega arith))
    ∙ ap some (drained_more q (suc m) (c ∷ t) (ground arith))
