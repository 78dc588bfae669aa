-- ===== src/Transfer/Endpoint/Tokens.antt =====
-- The life of an upload token: it is accepted at most once, and found by its handle until then.
use mcpplane.Common.{
  ℕ, ◌+◌, ◌≤◌, ◌≡◌, ◌≢◌, String, Bool, false, none, some, List, [], ◌∷◌, insert, ℤ, arith,
  lookup-insert, lookup-delete, str_eq_iff, str_eq_self,
}
use mcpplane.Transfer.Tasks.Methods.{PrepareOption}
use mcpplane.Transfer.Tasks.Types.{name_or, default_upload_name}
use mcpplane.Transfer.Tasks.System.{System}
use mcpplane.Transfer.Endpoint.{
  HttpToken, Upload, Body, prune, effective_ttl, mint, bind_handle, prepare_upload, find_upload,
  claim, put_handler,
}
use mcpplane.Transfer.Endpoint.Spent.{
  IsSpent, mint-IsSpent, prepare_upload-IsSpent, put_handler-IsSpent, claimed-IsSpent,
  claim-refused,
}

-- A call on the coordinator.
pub data Call (R : Type 0) : Type 0 where
  mints : Bool → ℕ → String → String → ℤ → String → Call R
  prepares : Bool → ℕ → ℕ → String → String → String → ℤ → List PrepareOption → String → Call R
  puts : Bool → ℕ → ℕ → ℕ → String → String → Body → (System R → System R) → Call R

module _ {R : Type 0} where
  pub step : Call R → Upload R → Upload R
  step (mints up now token name ttl jwt) cu = (mint up now token name ttl jwt cu).1
  step (prepares up now later token id name ttl opts jwt) cu =
      (prepare_upload up now later token id name ttl opts jwt cu).1
  step (puts is_put at now later id token body copy) cu =
      (put_handler is_put at now later id token body copy cu).1

  pub run : List (Call R) → Upload R → Upload R
  run [] cu = cu
  run (c ∷ cs) cu = run cs (step c cu)

  -- No call of the list makes the token anew.
  abbrev pub Unminted : String → List (Call R) → Type 0
  Unminted token [] = Unit
  Unminted token (mints up now t name ttl jwt ∷ cs) = (t ≢ token) × Unminted token cs
  Unminted token (prepares up now later t id name ttl opts jwt ∷ cs) =
      (t ≢ token) × Unminted token cs
  Unminted token (puts is_put at now later id t body copy ∷ cs) = Unminted token cs

  run-IsSpent :
      (token : String) (cs : List (Call R)) (cu : Upload R)
      → Unminted token cs
      → IsSpent token cu.tokens
      → IsSpent token (run cs cu).tokens
  unfolding run step
  run-IsSpent token [] cu u h = h
  run-IsSpent token (mints up now t name ttl jwt ∷ cs) cu u h =
      run-IsSpent token cs _ u.1 (mint-IsSpent up now token t name ttl jwt cu u.0 h)
  run-IsSpent token (prepares up now later t id name ttl opts jwt ∷ cs) cu u h =
      run-IsSpent token cs _ u.1
        (prepare_upload-IsSpent up now later token t id name ttl opts jwt cu u.0 h)
  run-IsSpent token (puts is_put at now later id t body copy ∷ cs) cu u h =
      run-IsSpent token cs _ u (put_handler-IsSpent is_put at now later token id t body copy cu h)

  -- A PUT is let in at most once by a token that is not made anew: after any claim of it, whether it
  -- was accepted or not, and any calls, a claim is refused.
  pub claim-spent :
      (now later : ℕ) (token : String) (cs : List (Call R)) (cu : Upload R)
      → Unminted token cs
      → (claim later token (run cs (claim now token cu).1)).0 ≡ none
  claim-spent now later token cs cu u =
      claim-refused later token (run cs (claim now token cu).1)
        (run-IsSpent token cs (claim now token cu).1 u (claimed-IsSpent now token cu))

  -- The handle, not empty, that a preparation binds to a token is found with that token, and a
  -- claim of the token is accepted for that handle, while the clock is at most the time to live
  -- past the binding; that claim hides the handle from later searches.
  pub bind_handle-claim :
      (now later t : ℕ) (token handle name : String) (ttl : ℤ) (jwt : String) (cu : Upload R)
      → handle ≢ ""
      → later ≤ now + effective_ttl ttl
      → (find_upload later handle (bind_handle now token handle name ttl jwt cu) ≡ some token)
        × ((claim later token (bind_handle now token handle name ttl jwt cu)).0
            ≡ some (record { name = name_or name default_upload_name; handle = handle; jwt = jwt }))
        × (find_upload t handle (claim later token (bind_handle now token handle name ttl jwt cu)).1
            ≡ none)
  unfolding find_upload claim bind_handle
  bind_handle-claim now later t token handle name ttl jwt cu n l =
      let cu' : Upload R = prune now cu in
      let v : HttpToken = record {
        name = name_or name default_upload_name;
        expires_at = now + effective_ttl ttl;
        used = false;
        handle = handle;
        jwt = jwt;
      } in
      ground (
        arith,
        lookup-insert token token v cu'.tokens,
        lookup-insert handle handle token cu'.by_handle,
        lookup-delete handle handle (insert handle token cu'.by_handle),
        str_eq_self token,
        str_eq_self handle,
        str_eq_iff handle "",
      )
