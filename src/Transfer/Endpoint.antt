-- ===== src/Transfer/Endpoint.antt =====
-- transfer/upload_http.go: the one-time upload endpoints, over the upload manager and its goroutines.
-- The mutex makes each section one step; a token is random and given, and so are the clock's
-- readings, the outcome of EnsureLoopback (`up`) and the outcome of reading a request's body.
pub mod Spent
pub mod Tokens
pub mod Bodies
use mcpplane.Common.{
  ℕ, ◌+◌, String, Bool, true, false, ◌||◌, Option, none, some, List, [], ◌∷◌, ltb, if◌then◌else◌,
  Dict, lookup, insert, delete, str_eq, ℤ, pos, positive_or, not,
}
use mcpplane.Transfer.Tasks.Types.{
  UploadTaskManager, UploadError, name_or, default_upload_name, default_prepared_ttl,
}
use mcpplane.Transfer.Tasks.Methods.{
  Reply, accepted, refused, PrepareOption, start, prepare, fulfill, cancel,
}
use mcpplane.Transfer.Tasks.System.{System, starts, fulfills, with_manager}

pub record HttpToken : Type 0 where
  pub name : String
  pub expires_at : ℕ
  pub used : Bool
  pub handle : String
  pub jwt : String

pub record Upload (R : Type 0) : Type 0 where
  pub tokens : Dict HttpToken
  pub by_handle : Dict String
  pub tasks : System R

-- What `claim` returns.
pub record Claimed : Type 0 where
  pub name : String
  pub handle : String
  pub jwt : String

-- How the copy of the body ends.
pub data Body : Type 0 where
  received too_large broken : Body

pub data PutResponse : Type 0 where
  method_not_allowed not_found invalid_endpoint body_too_large body_not_received : PutResponse
  failed_with : UploadError → PutResponse
  accepted_upload : String → PutResponse

-- if handle != "" { delete(cu.byHandle, handle) }
abbrev pub forget : String → Dict String → Dict String
forget handle m = if str_eq handle "" then m else delete handle m

-- The loop of `pruneLocked`.
unfoldable pub prune_tokens :
    ℕ → Dict HttpToken → Dict HttpToken × Dict String → Dict HttpToken × Dict String
prune_tokens now [] (tokens, handles) = (tokens, handles)
prune_tokens now ((token, t) ∷ rest) (tokens, handles) = prune_tokens now rest (
    if ltb t.expires_at now
    then (delete token tokens, forget t.handle handles)
    else (tokens, handles))

-- ttl <= 0 falls back to DefaultHTTPUploadTTL.
abbrev pub effective_ttl : ℤ → ℕ
effective_ttl ttl = positive_or ttl default_prepared_ttl

module _ {R : Type 0} where
  unfoldable pub prune : ℕ → Upload R → Upload R
  unfolding prune_tokens
  prune now cu =
      let (tokens, handles) = prune_tokens now cu.tokens (cu.tokens, cu.by_handle) in
      record cu { tokens = tokens; by_handle = handles }

  unfoldable pub mint :
      Bool → ℕ → String → String → ℤ → String → Upload R → Option String × Upload R
  unfolding prune
  mint false now token name ttl jwt cu = (none, cu)
  mint true now token name ttl jwt cu =
      let cu' : Upload R = prune now cu in
      (
        some token,
        record cu' {
          tokens =
              insert token
                (record {
                  name = name_or name default_upload_name;
                  expires_at = now + effective_ttl ttl;
                  used = false;
                  handle = "";
                  jwt = jwt;
                })
                cu'.tokens;
        },
      )

  -- The section of `Prepare` under the coordinator's lock.
  unfoldable pub bind_handle : ℕ → String → String → String → ℤ → String → Upload R → Upload R
  unfolding prune
  bind_handle now token handle name ttl jwt cu =
      let cu' : Upload R = prune now cu in
      record cu' {
        tokens =
            insert token
              (record {
                name = name_or name default_upload_name;
                expires_at = now + effective_ttl ttl;
                used = false;
                handle = handle;
                jwt = jwt;
              })
              cu'.tokens;
        by_handle = insert handle token cu'.by_handle;
      }

  -- `Prepare`: the manager's clock shows `now`, the coordinator's `later`.
  unfoldable pub prepare_upload :
      Bool
      → ℕ
      → ℕ
      → String
      → String
      → String
      → ℤ
      → List PrepareOption
      → String
      → Upload R
      → Option (String × String) × Upload R
  unfolding prepare bind_handle
  prepare_upload false now later token id name ttl opts jwt cu = (none, cu)
  prepare_upload true now later token id name ttl opts jwt cu =
      let (r, m) =
        prepare now id (name_or name default_upload_name) (pos (effective_ttl ttl)) opts
          cu.tasks.manager in
      let cu' : Upload R = record cu { tasks = with_manager m cu.tasks } in
      elim r [
        | refused e ↦ (none, cu')
        | accepted h ↦ (some (token, h), bind_handle later token h name ttl jwt cu')
      ]

  -- The token of a prepared upload that can still be fulfilled.
  unfoldable pub find_upload : ℕ → String → Upload R → Option String
  find_upload now handle cu = elim (lookup handle cu.by_handle) [
    | none ↦ none
    | some token ↦ elim (lookup token cu.tokens) [
      | none ↦ none
      | some t ↦ if t.used || ltb t.expires_at now then none else some token
    ]
  ]

  unfoldable pub claim : ℕ → String → Upload R → Option Claimed × Upload R
  claim now token cu = elim (lookup token cu.tokens) [
    | none ↦ (none, cu)
    | some t ↦
        if t.used || ltb t.expires_at now
        then (
          none,
          record cu { tokens = delete token cu.tokens; by_handle = forget t.handle cu.by_handle },
        )
        else (
          some (record { name = t.name; handle = t.handle; jwt = t.jwt }),
          record cu {
            tokens = insert token (record t { used = true }) cu.tokens;
            by_handle = forget t.handle cu.by_handle;
          },
        )
  ]

  -- Fulfill of the bound handle, or Start of a new upload under `id`: the upload's handle, or the
  -- error.
  unfoldable pub begin_upload : ℕ → String → Claimed → System R → Reply String × System R
  unfolding starts fulfills
  begin_upload now id c s =
      if str_eq c.handle "" then ((start now id c.name s.manager).0, starts now id c.name s) else (
        elim (fulfill now c.handle c.name s.manager).0 [
          | accepted job ↦ accepted c.handle
          | refused e ↦ refused e
        ],
        fulfills now c.handle c.name s,
      )

  abbrev pub cancelled_upload : ℕ → String → System R → System R
  cancelled_upload now id s = with_manager (cancel now id s.manager).1 s

  -- The end of `putHandler`, by the outcome of the copy.
  unfoldable pub finish_put : ℕ → String → Body → System R → PutResponse × System R
  unfolding cancel
  finish_put now id received s = (accepted_upload id, s)
  finish_put now id too_large s = (body_too_large, cancelled_upload now id s)
  finish_put now id broken s = (body_not_received, cancelled_upload now id s)

  -- `putHandler` after its claim. The clock shows `now` at the beginning of the upload and `later` at
  -- the end of the copy; `copy` is what goroutines and other requests do to the manager meanwhile.
  unfoldable pub put_claimed :
      ℕ → ℕ → String → Body → (System R → System R) → Claimed → System R → PutResponse × System R
  unfolding begin_upload finish_put
  put_claimed now later id body copy c s =
      let (r, s') = begin_upload now id c s in
      elim r [ refused e ↦ (failed_with e, s') | accepted h ↦ finish_put later h body (copy s') ]

  -- `putHandler` for a request, by whether its method is PUT.
  unfoldable pub put_handler :
      Bool
      → ℕ
      → ℕ
      → ℕ
      → String
      → String
      → Body
      → (System R → System R)
      → Upload R
      → PutResponse × Upload R
  unfolding claim put_claimed
  put_handler false at now later id token body copy cu = (method_not_allowed, cu)
  put_handler true at now later id token body copy cu =
      if str_eq token ""
      then (not_found, cu)
      else (let (c, cu') = claim at token cu in
          elim c [
            | none ↦ (invalid_endpoint, cu')
            | some c' ↦
                (let (r, s) = put_claimed now later id body copy c' cu'.tasks in
                  (r, record cu' { tasks = s }))
          ])
