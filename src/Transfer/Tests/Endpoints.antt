-- ===== src/Transfer/Tests/Endpoints.antt =====
-- Concrete upload endpoints, on which the theorems on transfer/upload_http.go are applied.
use mcpplane.Common.{
  ℕ, ◌≡◌, ◌≢◌, refl, ap, String, true, false, none, [], ◌∷◌, String-discrete, str_eq, arith, pos,
}
use mcpplane.Transfer.Tasks.Types.{new_upload_task_manager}
use mcpplane.Transfer.Tasks.Slots.{acquire_slot}
use mcpplane.Transfer.Tasks.Prune.{untombstone}
use mcpplane.Transfer.Tasks.Prune
use mcpplane.Transfer.Tasks.Methods.{start, begin}
use mcpplane.Transfer.Tasks.System.{System, initial}
use mcpplane.Transfer.Endpoint.{
  Upload, Claimed, received, broken, mint, claim, begin_upload, put_claimed,
}
use mcpplane.Transfer.Endpoint.Tokens.{mints, puts, run, claim-spent}
use mcpplane.Transfer.Endpoint.Bodies.{active, put_claimed-active}

abbrev coordinator : Upload ℕ
coordinator = record { tokens = []; by_handle = []; tasks = initial true (pos 60) }

abbrev one_token : Upload ℕ
one_token = (mint true 10 "t" "cat.png" (pos 30) "" coordinator).1

u_ne_t : ◌≢◌ {A = String} "u" "t"
unfolding String-discrete
u_ne_t q = let clash : true ≡ false = ap (str_eq "u") q in ground (arith, clash)

abbrev copies : System ℕ → System ℕ
copies s = s

claim-spent_example :
    (claim 30 "t" (
      run
        (mints true 25 "u" "dog.png" (pos 30) "" ∷ puts true 26 26 26 "b" "t" received copies ∷ [])
        (claim 20 "t" one_token).1)).0
    ≡ none
claim-spent_example =
    claim-spent 20 30 "t"
      (mints true 25 "u" "dog.png" (pos 30) "" ∷ puts true 26 26 26 "b" "t" received copies ∷ [])
      one_token (u_ne_t, tt)

abbrev bare : Claimed
bare = record { name = "cat.png"; handle = ""; jwt = "" }

broken_ne_received : broken ≢ received
broken_ne_received q = cc

put_claimed-active_example :
    active "a" (put_claimed 12 13 "a" broken copies bare coordinator.tasks).1.manager ≡ false
unfolding begin_upload start begin Prune.prune acquire_slot new_upload_task_manager String-discrete
put_claimed-active_example =
    put_claimed-active 12 13 "a" "a" broken copies bare coordinator.tasks broken_ne_received refl
