-- ===== src/Ieo/Readers/Bounds.antt =====
-- No reader passes on more than its bound, whatever the reader below it does within io.Reader's
-- contract.
use mcpplane.Common.{ℕ, ◌+◌, ◌≤◌, List, [], ◌∷◌, Option, none, some, length, Bytes, arith}
use mcpplane.Ieo.Readers.{
  ReadError, Reader, Limited, Bounded, clip, read_limited, probe_bounded, account_bounded,
  read_bounded,
}

-- The contract of io.Reader: no more bytes than the buffer has.
abbrev pub FitsBuffer : {S : Type 0} → Reader S → Type 0
FitsBuffer {S} r = (n : ℕ) (s : S) → length (r.read n s).0.0 ≤ n

-- The bytes that calls of Read with these buffers give, in total.
pub total : {T : Type 0} → (ℕ → T → (Bytes × Option ReadError) × T) → List ℕ → T → ℕ
total read [] t = 0
total read (n ∷ ns) t = length (read n t).0.0 + total read ns (read n t).1

module _ {S : Type 0} (r : Reader S) (fits : FitsBuffer r) where
  read_limited_step :
      (n : ℕ) (l : Limited S)
      → length (read_limited r n l).0.0 + (read_limited r n l).1.remaining ≤ l.remaining
  unfolding read_limited
  read_limited_step n l = ground (arith, fits 1 l.inner, fits (clip n l.remaining) l.inner)

  -- A limited reader passes on no more bytes than its limit, over any calls of Read.
  pub total-read_limited : (ns : List ℕ) (l : Limited S) → total (read_limited r) ns l ≤ l.remaining
  unfolding total
  total-read_limited [] l = omega arith
  total-read_limited (n ∷ ns) l =
      let a = read_limited_step n l in
      let b = total-read_limited ns (read_limited r n l).1 in omega arith

  probe_bounded_step :
      (b : Bounded S)
      → length (probe_bounded r b).0.0 + (probe_bounded r b).1.remaining ≤ b.remaining
  unfolding probe_bounded
  probe_bounded_step b = ground arith

  account_bounded_step :
      (p : Bytes) (e : Option ReadError) (s : S) (b : Bounded S)
      → length p ≤ b.remaining
      → length (account_bounded r p e s b).0.0 + (account_bounded r p e s b).1.remaining
        ≤ b.remaining
  unfolding account_bounded
  account_bounded_step p none s b h = omega arith
  account_bounded_step p (some ReadError.eof) s b h = ground arith
  account_bounded_step p (some ReadError.file_too_large) s b h = omega arith
  account_bounded_step p (some ReadError.size_mismatch) s b h = omega arith
  account_bounded_step p (some ReadError.invalid_base64) s b h = omega arith
  account_bounded_step p (some ReadError.other) s b h = omega arith

  read_bounded_step :
      (n : ℕ) (b : Bounded S)
      → length (read_bounded r n b).0.0 + (read_bounded r n b).1.remaining ≤ b.remaining
  unfolding read_bounded
  read_bounded_step n b =
      let p = r.read (clip n b.remaining) b.reader in
      let f = fits (clip n b.remaining) b.reader in
      ground (arith, f, probe_bounded_step b, account_bounded_step p.0.0 p.0.1 p.1 b)

  -- Nor does a bounded reader.
  pub total-read_bounded : (ns : List ℕ) (b : Bounded S) → total (read_bounded r) ns b ≤ b.remaining
  unfolding total
  total-read_bounded [] b = omega arith
  total-read_bounded (n ∷ ns) b =
      let s = read_bounded_step n b in
      let t = total-read_bounded ns (read_bounded r n b).1 in omega arith
