-- ===== src/Transfer/Names/Numerals.antt =====
-- The decimal numeral that `itoa` writes reads back as the number.
use mcpplane.Common.{
  ℕ, zero, suc, ◌+◌, ◌-◌, ◌*◌, ◌/◌, ◌%◌, ◌<◌, ◌≤◌, ◌≡◌, refl, ap, sym, ◌∙◌, inl, inr, ◌&&◌, true,
  false, [], ◌∷◌, some, leb, ltb, ◌==◌, if◌then◌else◌, Bytes, parse_digits, parse_int, int64_limit,
  unsigned, as_positive, as_negative, ℤ, pos, negsuc, arith, Bool-cases,
}
use mcpplane.Transfer.Names.{digits, itoa}

-- 10 ^ f
pow10 : ℕ → ℕ
pow10 zero = 1
pow10 (suc f) = 10 * pow10 f

parse_digits_step :
    (n : ℕ) (acc : Bytes) → parse_digits (n / 10) ((48 + n % 10) ∷ acc) ≡ parse_digits n acc
unfolding parse_digits
parse_digits_step n acc =
    let e : n / 10 * 10 + (48 + n % 10 - 48) ≡ n = omega arith in
    let d : (leb 48 (48 + n % 10) && leb (48 + n % 10) 57) ≡ true = ground arith in
    rw (d, e, if◌then◌else◌)

parse_digits-digits :
    (f n : ℕ) (acc : Bytes) → n < pow10 f → parse_digits 0 (digits f n acc) ≡ parse_digits n acc
unfolding digits pow10
parse_digits-digits zero n acc h = let e : n ≡ 0 = omega arith in rw e
parse_digits-digits (suc f) n acc h = elim (Bool-cases (n == 0)) [
  | inl e ↦ let z : n ≡ 0 = ground arith in rw z
  | inr e ↦
      rw (e, if◌then◌else◌)
        (parse_digits-digits f (n / 10) ((48 + n % 10) ∷ acc) (omega arith)
          ∙ parse_digits_step n acc)
]

-- The first byte of a numeral is a digit.
digits-head :
    (f n c : ℕ) (s : Bytes)
    → 48 ≤ c
    → (d : ℕ) × (t : Bytes) × (digits f n (c ∷ s) ≡ d ∷ t) × (48 ≤ d)
unfolding digits
digits-head zero n c s h = (c, s, refl, h)
digits-head (suc f) n c s h = elim (Bool-cases (n == 0)) [
  | inl e ↦ (c, s, rw (e, if◌then◌else◌), h)
  | inr e ↦
      let (d, t, q, l) = digits-head f (n / 10) (48 + n % 10) (c ∷ s) (omega arith) in
      (d, t, rw (e, if◌then◌else◌) q, l)
]

digits_cons : (n : ℕ) → (d : ℕ) × (t : Bytes) × (digits 20 (suc n) [] ≡ d ∷ t) × (48 ≤ d)
unfolding digits
digits_cons n =
    let e : (suc n == 0) ≡ false = ground arith in
    let (d, t, q, l) = digits-head 19 (suc n / 10) (48 + suc n % 10) [] (omega arith) in
    (d, t, rw (e, if◌then◌else◌) q, l)

limit_small : int64_limit ≤ pow10 20
unfolding pow10
limit_small = omega arith

unsigned-digits : (n : ℕ) → suc n < int64_limit → unsigned (digits 20 (suc n) []) ≡ some (suc n)
unfolding parse_digits
unsigned-digits n h =
    let (d, t, q, l) = digits_cons n in
    let e = parse_digits-digits 20 (suc n) [] (omega (arith, limit_small)) in ground (arith, q, e)

parse_int_cons : (d : ℕ) (t : Bytes) → 48 ≤ d → parse_int (d ∷ t) ≡ as_positive (unsigned (d ∷ t))
unfolding parse_int
parse_int_cons d t h =
    let e : (d == b'-') ≡ false = ground arith in
    let f : (d == b'+') ≡ false = ground arith in rw (e, if◌then◌else◌) (rw (f, if◌then◌else◌))

parse_int-digits :
    (n : ℕ) → parse_int (digits 20 (suc n) []) ≡ as_positive (unsigned (digits 20 (suc n) []))
parse_int-digits n =
    let (d, t, q, l) = digits_cons n in
    ap parse_int q ∙ parse_int_cons d t l ∙ ap (λ s. as_positive (unsigned s)) (sym q)

parse_int_minus : (s : Bytes) → parse_int (b'-' ∷ s) ≡ as_negative (unsigned s)
unfolding parse_int
parse_int_minus s = refl

abbrev pub magnitude : ℤ → ℕ
magnitude (pos n) = n
magnitude (negsuc n) = suc n

-- An integer of less than 2 ^ 63 in magnitude is written by itoa so that ParseInt reads it back.
pub parse_int-itoa : (x : ℤ) → magnitude x < int64_limit → parse_int (itoa x) ≡ some x
unfolding itoa
parse_int-itoa (pos zero) h = unfold parse_int parse_digits in refl
parse_int-itoa (pos (suc n)) h =
    let b : ltb (suc n) int64_limit ≡ true = ground arith in
    parse_int-digits n ∙ ap as_positive (unsigned-digits n h) ∙ rw (b, if◌then◌else◌)
parse_int-itoa (negsuc n) h =
    let b : ltb n int64_limit ≡ true = ground arith in
    let e : (suc n == int64_limit) ≡ false = ground arith in
    rw (e, if◌then◌else◌)
      (parse_int_minus (digits 20 (suc n) [])
        ∙ ap as_negative (unsigned-digits n h)
        ∙ rw (b, if◌then◌else◌))
