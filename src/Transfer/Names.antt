-- ===== src/Transfer/Names.antt =====
-- transfer/download_http.go: the texts of a download's headers, as bytes or code points.
pub mod Numerals
pub mod Filenames
use mcpplane.Common.{
  ℕ, zero, suc, ◌+◌, ◌-◌, ◌*◌, ◌/◌, ◌%◌, ◌<◌, ◌≡◌, ◌≢◌, refl, ap, sym, ◌∙◌, Bool, true, false, ◌||◌,
  List, [], ◌∷◌, map, Option, none, some, ltb, leb, ◌==◌, if◌then◌else◌, Bytes, codes, is_digit,
  parse_digits, parse_int, int64_limit, ℤ, pos, negsuc, All, arith, Bool-cases,
}

-- for n > 0 { i--; b[i] = '0' + n%10; n /= 10 }: the fuel is the length of the buffer.
unfoldable pub digits : ℕ → ℕ → Bytes → Bytes
digits zero n acc = acc
digits (suc f) n acc =
    let rest = digits f (n / 10) ((48 + n % 10) ∷ acc) in if n == 0 then acc else rest

-- The least int64 is its own negation, for which the loop does not run.
unfoldable pub itoa : ℤ → Bytes
unfolding digits
itoa (pos zero) = codes "0"
itoa (pos (suc n)) = digits 20 (suc n) []
itoa (negsuc n) =
    b'-' ∷ (let rest = digits 20 (suc n) [] in if suc n == int64_limit then [] else rest)

-- The code points that `SanitizeFilename` replaces.
unfoldable pub is_unsafe : ℕ → Bool
is_unsafe r =
    r == b'/'
    || r == b'\\'
    || r == b'"'
    || r == 13
    || r == 10
    || r == b':'
    || r == b'*'
    || r == b'?'
    || r == b'|'
    || r == b'<'
    || r == b'>'

unfoldable pub sanitize_rune : ℕ → ℕ
unfolding is_unsafe
sanitize_rune r = if is_unsafe r then b'_' else r

-- "", "." and "..".
unfoldable pub is_dots : Bytes → Bool
is_dots [] = true
is_dots (c ∷ []) = c == b'.'
is_dots (c ∷ d ∷ []) = if c == b'.' then d == b'.' else false
is_dots (c ∷ d ∷ e ∷ s) = false

unfoldable pub or_download : Bytes → Bytes
unfolding is_dots
or_download out = if is_dots out then codes "download" else out

unfoldable pub sanitize_filename : Bytes → Bytes
unfolding or_download sanitize_rune
sanitize_filename [] = codes "download"
sanitize_filename (r ∷ s) = or_download (map sanitize_rune (r ∷ s))
