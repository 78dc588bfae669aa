-- ===== src/Ieo/Readers.antt =====
-- ieo/file_relay.go and ieo/file_data_uri.go: the readers that bound what they pass on. The reader
-- below is an interface: an io.Reader's Read as a function of the length of its buffer, which gives
-- the bytes read, an error, and the reader's new state.
pub mod Bounds
pub mod Draining
use mcpplane.Common.{
  ℕ, zero, suc, ◌+◌, ◌-◌, Bool, true, false, ◌&&◌, not, List, [], ◌∷◌, ◌++◌, Option, none, some,
  ltb, ◌==◌, if◌then◌else◌, length, Bytes, take, drop, ℤ, pos, negsuc,
}

pub data ReadError : Type 0 where
  eof file_too_large size_mismatch invalid_base64 : ReadError
  other : ReadError

pub record Reader (S : Type 0) : Type 0 where
  pub read : ℕ → S → (Bytes × Option ReadError) × S

pub record Limited (S : Type 0) : Type 0 where
  pub inner : S
  pub remaining : ℕ

pub record Bounded (S : Type 0) : Type 0 where
  pub reader : S
  pub remaining : ℕ
  pub read_count : ℕ
  pub finished : Bool
  pub declared_size : ℤ

-- if len(p) > remaining { p = p[:remaining] }
abbrev pub clip : ℕ → ℕ → ℕ
clip n remaining = if ltb remaining n then remaining else n

abbrev pub is_eof : Option ReadError → Bool
is_eof (some eof) = true
is_eof e = false

-- if declared.Size > 0 && read != declared.Size
abbrev pub mismatched : ℤ → ℕ → Bool
mismatched (pos declared) n = ltb 0 declared && not (n == declared)
mismatched (negsuc d) n = false

module _ {S : Type 0} (r : Reader S) where
  open r use {read}

  -- limitedReadCloser.Read with a buffer of n bytes.
  unfoldable pub read_limited : ℕ → Limited S → (Bytes × Option ReadError) × Limited S
  read_limited n l =
      if l.remaining == 0
      then (let (p, s) = read 1 l.inner in
          (
            if ltb 0 (length p.0) then ([], some file_too_large) else ([], p.1),
            record l { inner = s },
          ))
      else (let (p, s) = read (clip n l.remaining) l.inner in
          (p, record { inner = s; remaining = l.remaining - length p.0 }))

  -- The probe of boundedDataReader.Read at the cap.
  unfoldable pub probe_bounded : Bounded S → (Bytes × Option ReadError) × Bounded S
  probe_bounded b =
      let (p, s) = read 1 b.reader in
      (
        if ltb 0 (length p.0)
            then ([], some file_too_large)
            else if mismatched b.declared_size b.read_count
            then ([], some size_mismatch)
            else ([], p.1),
        record b { reader = s; finished = true },
      )

  -- The end of boundedDataReader.Read, with what the decoder gave.
  unfoldable pub account_bounded :
      Bytes → Option ReadError → S → Bounded S → (Bytes × Option ReadError) × Bounded S
  account_bounded p e s b =
      let b' : Bounded S = record b {
        reader = s;
        read_count = b.read_count + length p;
        remaining = b.remaining - length p;
      } in
      elim e [
        | none ↦ ((p, none), b')
        | some x ↦
            if is_eof (some x)
            then (
              if mismatched b.declared_size b'.read_count
                  then (p, some size_mismatch)
                  else (p, some eof),
              record b' { finished = true },
            )
            else ((p, some invalid_base64), b')
      ]

  unfoldable pub read_bounded : ℕ → Bounded S → (Bytes × Option ReadError) × Bounded S
  unfolding probe_bounded account_bounded
  read_bounded n b =
      if b.finished
      then (([], some eof), b)
      else if b.remaining == 0
      then probe_bounded b
      else (let (p, s) = read (clip n b.remaining) b.reader in account_bounded p.0 p.1 s b)

-- One Read of io.ReadAll, and what the later ones give.
abbrev pub continue_read :
    Bytes × Option ReadError → Option (Bytes × Option ReadError) → Option (Bytes × Option ReadError)
continue_read (p, some x) rest = some (p, if is_eof (some x) then none else some x)
continue_read (p, none) none = none
continue_read (p, none) (some (t, e)) = some (p ++ t, e)

-- io.ReadAll with a buffer of k bytes for each Read: the bytes, and an error other than EOF. It
-- runs on fuel, which bounds the calls of Read.
unfoldable pub read_all :
    {S : Type 0}
    → ℕ
    → ℕ
    → (ℕ → S → (Bytes × Option ReadError) × S)
    → S
    → Option (Bytes × Option ReadError)
read_all zero k read s = none
read_all (suc fuel) k read s = continue_read (read k s).0 (read_all fuel k read (read k s).1)

-- A reader over bytes in memory, as strings.Reader.
abbrev pub memory : Reader Bytes
memory = record {
  read = λ n s. elim s [
    | [] ↦ (([], some eof), [])
    | c ∷ t ↦ ((take n (c ∷ t), none), drop n (c ∷ t))
  ];
}
