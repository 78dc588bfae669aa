-- ===== src/Transfer/Names/Filenames.antt =====
-- What `SanitizeFilename` lets through.
use mcpplane.Common.{
  ℕ, ◌≡◌, ◌≢◌, refl, inl, inr, true, false, [], ◌∷◌, map, if◌then◌else◌, Bytes, codes, All, arith,
  Bool-cases,
}
use mcpplane.Transfer.Names.{is_unsafe, sanitize_rune, is_dots, or_download, sanitize_filename}

-- None of the separators, the quote, the line breaks and the characters that file systems reserve.
pub record IsPlain (r : ℕ) : Type 0 where
  pub separators : (r ≢ b'/') × (r ≢ b'\\')
  pub quote : r ≢ b'"'
  pub line_breaks : (r ≢ 10) × (r ≢ 13)
  pub reserved : (r ≢ b':') × (r ≢ b'*') × (r ≢ b'?') × (r ≢ b'|') × (r ≢ b'<') × (r ≢ b'>')

pub record IsSafe (name : Bytes) : Type 0 where
  pub runes : All IsPlain name
  pub not_empty : name ≢ []
  pub not_dots : (name ≢ codes ".") × (name ≢ codes "..")

IsPlain-is_unsafe : (r : ℕ) → is_unsafe r ≡ false → IsPlain r
unfolding is_unsafe
IsPlain-is_unsafe r h = ground arith

is_unsafe-IsPlain : (r : ℕ) → IsPlain r → is_unsafe r ≡ false
unfolding is_unsafe
is_unsafe-IsPlain r p = ground arith

All-IsPlain : (s : Bytes) → All (λ r. is_unsafe r ≡ false) s → All IsPlain s
All-IsPlain [] h = tt
All-IsPlain (r ∷ s) h = (IsPlain-is_unsafe r h.0, All-IsPlain s h.1)

not_named : (s t : Bytes) → is_dots s ≡ false → is_dots t ≡ true → s ≢ t
not_named s t h k e = cc

is_dots-IsSafe : (s : Bytes) → All (λ r. is_unsafe r ≡ false) s → is_dots s ≡ false → IsSafe s
unfolding is_dots
is_dots-IsSafe s h e = record {
  runes = All-IsPlain s h;
  not_empty = not_named s [] e refl;
  not_dots = (not_named s (codes ".") e refl, not_named s (codes "..") e refl);
}

sanitize_rune-safe : (r : ℕ) → is_unsafe (sanitize_rune r) ≡ false
unfolding sanitize_rune
sanitize_rune-safe r = elim (Bool-cases (is_unsafe r)) [
  | inl e ↦ rw (e, if◌then◌else◌)
  | inr e ↦ rw (e, if◌then◌else◌) e
]

map-safe : (s : Bytes) → All (λ r. is_unsafe r ≡ false) (map sanitize_rune s)
map-safe [] = tt
map-safe (r ∷ s) = (sanitize_rune-safe r, map-safe s)

download-IsSafe : IsSafe (codes "download")
unfolding is_unsafe is_dots
download-IsSafe =
    is_dots-IsSafe (codes "download")
      (refl, (refl, (refl, (refl, (refl, (refl, (refl, (refl, tt)))))))) refl

or_download-IsSafe : (s : Bytes) → All (λ r. is_unsafe r ≡ false) s → IsSafe (or_download s)
unfolding or_download
or_download-IsSafe s h = elim (Bool-cases (is_dots s)) [
  | inl e ↦ rw (e, if◌then◌else◌) download-IsSafe
  | inr e ↦ rw (e, if◌then◌else◌) (is_dots-IsSafe s h e)
]

-- Every result of SanitizeFilename is safe: it has no slash, backslash, double quote, carriage
-- return, line feed, colon, asterisk, question mark, bar or angle bracket, and it is not empty,
-- "." or "..".
pub sanitize_filename-IsSafe : (name : Bytes) → IsSafe (sanitize_filename name)
unfolding sanitize_filename
sanitize_filename-IsSafe [] = download-IsSafe
sanitize_filename-IsSafe (r ∷ s) = or_download-IsSafe (map sanitize_rune (r ∷ s)) (map-safe (r ∷ s))

sanitize_rune_kept : (r : ℕ) → is_unsafe r ≡ false → sanitize_rune r ≡ r
unfolding sanitize_rune
sanitize_rune_kept r e = rw (e, if◌then◌else◌)

map_kept : (s : Bytes) → All IsPlain s → map sanitize_rune s ≡ s
map_kept [] h = refl
map_kept (r ∷ s) h = cc (sanitize_rune_kept r (is_unsafe-IsPlain r h.0), map_kept s h.1)

dots_named : (s : Bytes) → s ≢ [] → s ≢ codes "." → s ≢ codes ".." → is_dots s ≡ false
unfolding is_dots
dots_named [] a b c = absurd (a refl)
dots_named (x ∷ []) a b c = ground arith
dots_named (x ∷ y ∷ []) a b c = ground arith
dots_named (x ∷ y ∷ z ∷ s) a b c = refl

-- A safe name is left as it is.
pub sanitize_filename_kept : (name : Bytes) → IsSafe name → sanitize_filename name ≡ name
unfolding sanitize_filename or_download is_dots
sanitize_filename_kept [] h = absurd (h.not_empty refl)
sanitize_filename_kept (r ∷ s) h =
    let d = dots_named (r ∷ s) h.not_empty h.not_dots.0 h.not_dots.1 in
    ground (arith, map_kept (r ∷ s) h.runes)

-- Cleaning a name twice is cleaning it once.
pub sanitize_filename_idem :
    (name : Bytes) → sanitize_filename (sanitize_filename name) ≡ sanitize_filename name
sanitize_filename_idem name = sanitize_filename_kept _ (sanitize_filename-IsSafe name)
