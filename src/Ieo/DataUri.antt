-- ===== src/Ieo/DataUri.antt =====
-- ieo/file_data_uri.go: the parser of a data: URI that carries a file, up to the reader that it returns,
-- which is the bounded reader of Readers over the base64 decoder of the payload. A URI is a list
-- of bytes; sizes and the cap are int64.
pub mod Lengths
pub mod Sizes
pub mod Parsed
use mcpplane.Common.{
  ℕ, zero, suc, ◌+◌, ◌-◌, ◌*◌, ◌/◌, ◌≡◌, refl, Bool, true, false, ◌&&◌, ◌||◌, not, List, [], ◌∷◌,
  ◌++◌, Option, none, some, ltb, leb, ◌==◌, if◌then◌else◌, length, Bytes, codes, bytes_eq,
  cut_prefix, cons_to, is_some, trim_space, has_byte, parse_int, int64_limit, ℤ, pos, negsuc,
}
use mathlib.Core.List.{reverse}

pub record FileDataUriOption : Type 0 where
  pub mime_type : Bytes
  pub name : Bytes
  pub size : ℤ

-- The errors: ErrInvalidFileReference at five places, and ErrFileTooLarge at two.
pub data DataUriError : Type 0 where
  not_data_uri no_comma not_base64 wrong_size : DataUriError
  encoded_too_large declared_too_large : DataUriError

-- The payload that the reader decodes, and what is declared of it.
pub data ParseResult : Type 0 where
  rejected : DataUriError → ParseResult
  parsed : Bytes → FileDataUriOption → ParseResult

-- The texts before and after the first byte of that value: IndexByte and the slices.
unfoldable pub cut_at : ℕ → Bytes → Option (Bytes × Bytes)
cut_at b [] = none
cut_at b (c ∷ s) =
    let rest = cut_at b s in
    if c == b then some ([], s) else elim rest [ none ↦ none | some (x, y) ↦ some (c ∷ x, y) ]

abbrev pub cons_first : ℕ → List Bytes → List Bytes
cons_first c [] = (c ∷ []) ∷ []
cons_first c (s ∷ ss) = (c ∷ s) ∷ ss

-- strings.Split by one byte.
unfoldable pub split_on : ℕ → Bytes → List Bytes
split_on b [] = [] ∷ []
split_on b (c ∷ s) = if c == b then [] ∷ split_on b s else cons_first c (split_on b s)

-- The value of a hexadecimal digit.
abbrev pub hex_value : ℕ → Option ℕ
hex_value c =
    if leb 48 c && leb c 57
    then some (c - 48)
    else if leb 97 c && leb c 102
    then some (c - 87)
    else if leb 65 c && leb c 70
    then some (c - 55)
    else none

abbrev pub hex_pair : ℕ → ℕ → Option ℕ
hex_pair a b = elim (hex_value a) [
  | none ↦ none
  | some x ↦ elim (hex_value b) [ none ↦ none | some y ↦ some (16 * x + y) ]
]

abbrev pub unplus : ℕ → ℕ
unplus c = if c == b'+' then b' ' else c

-- url.QueryUnescape; `none` is an error.
unfoldable pub query_unescape : Bytes → Option Bytes
query_unescape [] = some []
query_unescape (c ∷ []) = if c == b'%' then none else some (unplus c ∷ [])
query_unescape (c ∷ a ∷ []) =
    let rest = query_unescape (a ∷ []) in if c == b'%' then none else cons_to (unplus c) rest
query_unescape (c ∷ a ∷ b ∷ s) =
    let after = query_unescape s in
    let rest = query_unescape (a ∷ b ∷ s) in
    if c == b'%'
    then (elim (hex_pair a b) [ none ↦ none | some x ↦ cons_to x after ])
    else cons_to (unplus c) rest

abbrev pub or_empty : Option Bytes → Bytes
or_empty none = []
or_empty (some s) = s

-- One parameter of the metadata, without spaces.
unfoldable pub read_part : Bytes → FileDataUriOption × Bool → FileDataUriOption × Bool
unfolding query_unescape
read_part part (opt, encoded) =
    if bytes_eq part (codes "base64")
    then (opt, true)
    else (elim (cut_prefix (codes "name=") part) [
      | some v ↦ (record opt { name = or_empty (query_unescape v) }, encoded)
      | none ↦ elim (cut_prefix (codes "size=") part) [
        | some v ↦ (elim (parse_int v) [ none ↦ opt | some n ↦ record opt { size = n } ], encoded)
        | none ↦
            if is_some (cut_prefix (codes "mime=") part) || has_byte b'/' part
            then (record opt { mime_type = part }, encoded)
            else (opt, encoded)
      ]
    ])

unfoldable pub read_parts : List Bytes → FileDataUriOption × Bool → FileDataUriOption × Bool
unfolding read_part
read_parts [] acc = acc
read_parts (part ∷ parts) acc = read_parts parts (read_part (trim_space part) acc)

abbrev pub no_option : FileDataUriOption
no_option = record { mime_type = []; name = []; size = pos 0 }

unfoldable pub read_meta : Bytes → FileDataUriOption × Bool
unfolding split_on read_parts
read_meta [] = (no_option, false)
read_meta (c ∷ s) = read_parts (split_on b';' (c ∷ s)) (no_option, false)

abbrev pub is_newline : ℕ → Bool
is_newline c = c == 10 || c == 13

-- The bytes other than line breaks.
unfoldable pub count_encoded : Bytes → ℕ
count_encoded [] = 0
count_encoded (c ∷ s) = if is_newline c then count_encoded s else suc (count_encoded s)

-- The padding at the end, from the last byte on.
unfoldable pub count_padding : Bytes → ℕ
count_padding [] = 0
count_padding (c ∷ s) =
    if is_newline c then count_padding s else if c == b'=' then suc (count_padding s) else 0

abbrev pub minus : ℕ → ℕ → ℤ
minus a b = if leb b a then pos (a - b) else negsuc (b - a - 1)

unfoldable pub base64_decoded_len : Bytes → ℤ
unfolding count_encoded count_padding
base64_decoded_len encoded =
    let n = count_encoded encoded in
    if n == 0 then pos 0 else minus (n / 4 * 3) (count_padding (reverse encoded))

abbrev pub int_eq : ℤ → ℤ → Bool
int_eq (pos a) (pos b) = a == b
int_eq (negsuc a) (negsuc b) = a == b
int_eq a b = false

-- a > b
abbrev pub int_gt : ℤ → ℤ → Bool
int_gt (pos a) (pos b) = ltb b a
int_gt (pos a) (negsuc b) = true
int_gt (negsuc a) (pos b) = false
int_gt (negsuc a) (negsuc b) = ltb a b

-- int64(n) > maxBytes*2, whose product wraps around.
unfoldable pub over_twice : ℕ → ℤ → Bool
over_twice n (pos m) = if ltb (2 * m) int64_limit then ltb (2 * m) n else true
over_twice n (negsuc m) =
    if ltb int64_limit (2 * suc m) then ltb (2 * int64_limit - 2 * suc m) n else true

-- The end of ParseFileDataURI, past the check of the encoded length.
unfoldable pub check_size : ℤ → Bytes → FileDataUriOption → ParseResult
unfolding base64_decoded_len
check_size max_bytes payload opt =
    let decoded = base64_decoded_len payload in
    if int_eq opt.size (pos 0)
    then if int_gt decoded max_bytes
      then rejected declared_too_large
      else parsed payload (record opt { size = decoded })
    else if not (int_eq opt.size decoded)
    then rejected wrong_size
    else if int_gt opt.size max_bytes
    then rejected declared_too_large
    else parsed payload opt

-- ParseFileDataURI past the slices.
unfoldable pub parse_parts : ℤ → Bytes → Bytes → ParseResult
unfolding read_meta over_twice check_size
parse_parts max_bytes meta payload =
    if not (read_meta meta).1
    then rejected not_base64
    else if over_twice (length payload) max_bytes
    then rejected encoded_too_large
    else check_size max_bytes payload (read_meta meta).0

unfoldable pub parse_file_data_uri : Bytes → ℤ → ParseResult
unfolding cut_at parse_parts
parse_file_data_uri uri max_bytes = elim (cut_prefix (codes "data:") uri) [
  | none ↦ rejected not_data_uri
  | some body ↦ elim (cut_at b',' body) [
    | none ↦ rejected no_comma
    | some (meta, payload) ↦ parse_parts max_bytes meta payload
  ]
]
