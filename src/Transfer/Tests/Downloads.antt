-- ===== src/Transfer/Tests/Downloads.antt =====
-- Concrete downloads, on which the theorems on transfer/download_http.go are applied.
use mcpplane.Common.{
  ◌≡◌, ◌≢◌, refl, ap, String, true, none, some, List, [], ◌∷◌, ◌++◌, String-discrete, str_eq, arith,
  pos, negsuc, codes, parse_int, lookup, insert, delete,
}
use mcpplane.Transfer.Names.{itoa, sanitize_filename}
use mcpplane.Transfer.Names.Numerals.{parse_int-itoa}
use mcpplane.Transfer.Names.Filenames.{IsSafe, sanitize_filename-IsSafe}
use mcpplane.Transfer.Writers.{Source, size_limited, copies}
use mcpplane.Transfer.Download.{
  DownloadToken, Download, initial, mint, minted, claim, serve_claimed,
}
use mcpplane.Transfer.Download.Answers.{Answered, serve_claimed_lem}
use mcpplane.Transfer.Download.Capped.{IsCapped, serve_claimed-size_limited}
use mcpplane.Transfer.Download.Claims.{Call, mints, claims, ends, run, claim_spent}
use mcpplane.Transfer.Download.Hooks.{was_called, run-was_called}

abbrev letters : Source
letters = copies (codes "abcdef" ∷ codes "ghi" ∷ [])

-- Nine bytes in two chunks, with a cap of seven.
abbrev capped : String → Source
capped jwt = size_limited (pos 7) 0 letters

abbrev one_download : Download
one_download =
    (mint true 10 "t" (codes "a.txt") (pos 9) (some capped) (pos 30) (some 7 ∷ []) "" initial).1

abbrev capped_token : DownloadToken
capped_token = minted 10 (codes "a.txt") (pos 9) capped (pos 30) (some 7 ∷ []) ""

u_ne_t : ◌≢◌ {A = String} "u" "t"
unfolding String-discrete
u_ne_t q = let clash : true ≡ str_eq "u" "t" = ap (str_eq "u") q in ground (arith, clash)

abbrev others : List Call
others =
    mints true 25 "u" (codes "b") (pos 0) (some capped) (pos 30) [] ""
    ∷ ends capped_token
    ∷ claims 26 "t"
    ∷ []

claim_spent_example : (claim 30 "t" (run others (claim 20 "t" one_download).1)).0 ≡ none
claim_spent_example = claim_spent 20 30 "t" others one_download (u_ne_t, tt)

serve_claimed_lem_example : Answered 100 capped_token (serve_claimed 100 capped_token)
serve_claimed_lem_example = serve_claimed_lem 100 capped_token

-- With a cap of five the first chunk is over it.
abbrev over_token : DownloadToken
over_token = record capped_token { serve = λ jwt. size_limited (pos 5) 0 letters }

over_test :
    (serve_claimed 100 over_token).wire.body
    ≡ codes "download exceeds max_mcp_upload_size (5 bytes)" ++ 10 ∷ []
unfolding serve_claimed itoa size_limited copies
over_test = refl

serve_claimed-size_limited_example : IsCapped 7 100 (serve_claimed 100 capped_token)
serve_claimed-size_limited_example =
    serve_claimed-size_limited 7 100 capped_token letters (omega arith) refl

run-was_called_example :
    was_called 7
      (run (claims 20 "t" ∷ ends capped_token ∷ claims 21 "t" ∷ []) one_download).released
    ≡ true
unfolding lookup run claim mint insert String-discrete delete
run-was_called_example =
    run-was_called 10 "t" (codes "a.txt") (pos 9) capped (pos 30) 7 [] ""
      (claims 20 "t" ∷ ends capped_token ∷ claims 21 "t" ∷ []) initial refl tt gone
  where
    gone :
        lookup "t"
          (run (claims 20 "t" ∷ ends capped_token ∷ claims 21 "t" ∷ []) one_download).tokens
        ≡ none
    gone = refl

parse_int-itoa_example : parse_int (itoa (negsuc 1233)) ≡ some (negsuc 1233)
parse_int-itoa_example = parse_int-itoa (negsuc 1233) (omega arith)

sanitize_filename-IsSafe_example : IsSafe (sanitize_filename (codes "../a\"b"))
sanitize_filename-IsSafe_example = sanitize_filename-IsSafe (codes "../a\"b")

sanitize_test : sanitize_filename (codes "a/b:c\"") ≡ codes "a_b_c_"
unfolding sanitize_filename
sanitize_test = refl

itoa_test : itoa (negsuc 1233) ≡ codes "-1234"
unfolding itoa
itoa_test = refl
