-- ===== src/Ieo/Tests/Files.antt =====
-- Concrete trees, readers and data: URIs.
use mcpplane.Common.{
  ◌≡◌, refl, true, false, some, [], ◌∷◌, ◌++◌, arith, pos, negsuc, codes, cut_prefix, parse_int,
  trim_space, parse_digits, has_byte,
}
use mcpplane.Ieo.Trees.{aggregate, Visit, check_directory_size}
use mcpplane.Ieo.Trees.Fits.{passes, tree_fits, directory_weight, check_directory_size-fits}
use mcpplane.Ieo.Readers.{memory, read_limited, read_all}
use mcpplane.Ieo.Readers.Draining.{drained, read_all-read_limited}
use mcpplane.Ieo.DataUri.{parse_file_data_uri, parsed, rejected, encoded_too_large, read_meta}
use mcpplane.Ieo.DataUri.Lengths.{Encodes, unwrap, pads}
use mcpplane.Ieo.DataUri.Parsed.{
  IsAccepted, parse_file_data_uri-IsAccepted, parse_file_data_uri-Encodes,
}

-- A link of nine bytes to a file of a hundred.
abbrev link : Visit
link = record {
  path = "link";
  walk_error = false;
  entry_is_dir = false;
  info = some (record { is_dir = false; is_regular = false; size = 9 });
  stat = some (record { is_dir = false; is_regular = true; size = 100 });
}

check_directory_size-fits_example :
    passes (check_directory_size (link ∷ link ∷ []) (pos 150) aggregate)
    ≡ tree_fits aggregate 150 directory_weight (link ∷ link ∷ [])
check_directory_size-fits_example =
    check_directory_size-fits (link ∷ link ∷ []) 150 aggregate (omega arith) (omega arith)

read_all-read_limited_example :
    read_all 10 2 (read_limited memory) (record { inner = codes "abcde"; remaining = 3 })
    ≡ some (drained 3 (codes "abcde"))
read_all-read_limited_example =
    read_all-read_limited 10 2 3 (codes "abcde") (omega arith) (omega arith)

-- The encoding of "Hi".
hi_Encodes : Encodes 2 (codes "SGk=")
unfolding unwrap pads has_byte
hi_Encodes = record {
  body = codes "SGk";
  padding = 1;
  shape = refl;
  no_pad = refl;
  padded = refl;
  groups = refl;
}

mime_test :
    parse_file_data_uri (codes "data:;name=a%20b;size=2;mime=text/plain;base64,SGk=") (pos 10)
    ≡ parsed
        (codes "SGk=")
        (record { mime_type = codes "mime=text/plain"; name = codes "a b"; size = pos 2 })
unfolding parse_file_data_uri cut_prefix parse_int trim_space parse_digits
mime_test = refl

one_byte_test : parse_file_data_uri (codes "data:;base64,QQ==") (pos 1) ≡ rejected encoded_too_large
unfolding parse_file_data_uri cut_prefix parse_int trim_space
one_byte_test = refl

parse_file_data_uri-Encodes_example :
    parse_file_data_uri (codes "data:" ++ codes ";name=a%20b;base64" ++ b',' ∷ codes "SGk=") (pos 9)
    ≡ parsed (codes "SGk=") (record (read_meta (codes ";name=a%20b;base64")).0 { size = pos 2 })
unfolding read_meta cut_prefix trim_space has_byte
parse_file_data_uri-Encodes_example =
    parse_file_data_uri-Encodes 2 9 (codes ";name=a%20b;base64") (codes "SGk=") refl refl refl
      hi_Encodes refl (omega arith) (omega arith) (omega arith)

parse_file_data_uri-IsAccepted_example :
    IsAccepted
      (codes "data:;name=a%20b;size=2;mime=text/plain;base64,SGk=")
      (pos 10)
      (codes "SGk=")
      (record { mime_type = codes "mime=text/plain"; name = codes "a b"; size = pos 2 })
parse_file_data_uri-IsAccepted_example =
    parse_file_data_uri-IsAccepted (codes "data:;name=a%20b;size=2;mime=text/plain;base64,SGk=")
      (pos 10) (codes "SGk=")
      (record { mime_type = codes "mime=text/plain"; name = codes "a b"; size = pos 2 }) mime_test

-- A payload of padding alone is accepted, with the size -1.
padding_alone_test :
    parse_file_data_uri (codes "data:;base64,====") (pos 10)
    ≡ parsed (codes "====") (record { mime_type = []; name = []; size = negsuc 0 })
unfolding parse_file_data_uri has_byte cut_prefix trim_space
padding_alone_test = refl
