-- ===== src/Transfer/Endpoint/Spent.antt =====
-- A token that was used stays so through every section of the coordinator.
use mcpplane.Common.{
  ℕ, ◌+◌, ◌≡◌, ◌≢◌, ◌⊎◌, inl, inr, refl, String, Bool, true, false, none, some, List, [], ◌∷◌, ltb,
  Dict, lookup, delete, ℤ, pos, arith, Option-cases, Bool-cases, lookup-insert, lookup-delete,
  str_eq_iff, str_eq_self,
}
use mcpplane.Transfer.Tasks.Methods.{Reply, accepted, refused, PrepareOption, prepare}
use mcpplane.Transfer.Tasks.Types.{UploadError, name_or, default_upload_name}
use mcpplane.Transfer.Tasks.System.{System, with_manager}
use mcpplane.Transfer.Endpoint.{
  HttpToken, Upload, Body, forget, prune_tokens, prune, effective_ttl, mint, bind_handle,
  prepare_upload, claim, put_handler,
}

-- A token that was used, or that the map does not have.
abbrev pub IsSpent : String → Dict HttpToken → Type 0
IsSpent token m = elim (lookup token m) [ none ↦ true | some t ↦ t.used ] ≡ true

prune_tokens-IsSpent :
    (now : ℕ) (token : String) (m : Dict HttpToken) (p : Dict HttpToken × Dict String)
    → IsSpent token p.0
    → IsSpent token (prune_tokens now m p).0
unfolding prune_tokens
prune_tokens-IsSpent now token [] (tokens, handles) h = h
prune_tokens-IsSpent now token ((j, t) ∷ m) (tokens, handles) h =
    elim (Bool-cases (ltb t.expires_at now)) [
      | inl e ↦
          rw (e, prune_tokens)
            (prune_tokens-IsSpent now token m (delete j tokens, forget t.handle handles)
              (ground (arith, lookup-delete j token tokens)))
      | inr e ↦ rw (e, prune_tokens) (prune_tokens-IsSpent now token m (tokens, handles) h)
    ]

pub Reply-cases :
    {A : Type 0} (r : Reply A)
    → ((e : UploadError) × (r ≡ refused e)) ⊎ ((a : A) × (r ≡ accepted a))
Reply-cases (refused e) = inl (e, refl)
Reply-cases (accepted a) = inr (a, refl)

module _ {R : Type 0} where
  pub prune-IsSpent :
      (now : ℕ) (token : String) (cu : Upload R)
      → IsSpent token cu.tokens
      → IsSpent token (prune now cu).tokens
  unfolding prune
  prune-IsSpent now token cu h =
      prune_tokens-IsSpent now token cu.tokens (cu.tokens, cu.by_handle) h

  pub mint-IsSpent :
      (up : Bool) (now : ℕ) (token t name : String) (ttl : ℤ) (jwt : String) (cu : Upload R)
      → t ≢ token
      → IsSpent token cu.tokens
      → IsSpent token (mint up now t name ttl jwt cu).1.tokens
  unfolding mint
  mint-IsSpent false now token t name ttl jwt cu n h = h
  mint-IsSpent true now token t name ttl jwt cu n h = ground (
    arith,
    prune-IsSpent now token cu h,
    lookup-insert t token
        (record {
          name = name_or name default_upload_name;
          expires_at = now + effective_ttl ttl;
          used = false;
          handle = "";
          jwt = jwt;
        })
        (prune now cu).tokens,
    str_eq_iff t token,
  )

  bind_handle-IsSpent :
      (now : ℕ) (token t handle name : String) (ttl : ℤ) (jwt : String) (cu : Upload R)
      → t ≢ token
      → IsSpent token cu.tokens
      → IsSpent token (bind_handle now t handle name ttl jwt cu).tokens
  unfolding bind_handle
  bind_handle-IsSpent now token t handle name ttl jwt cu n h = ground (
    arith,
    prune-IsSpent now token cu h,
    lookup-insert t token
        (record {
          name = name_or name default_upload_name;
          expires_at = now + effective_ttl ttl;
          used = false;
          handle = handle;
          jwt = jwt;
        })
        (prune now cu).tokens,
    str_eq_iff t token,
  )

  pub claim-IsSpent :
      (now : ℕ) (token t : String) (cu : Upload R)
      → IsSpent token cu.tokens
      → IsSpent token (claim now t cu).1.tokens
  unfolding claim
  claim-IsSpent now token t cu h = elim (Option-cases (lookup t cu.tokens)) [
    | inl e ↦ rw (e, claim) h
    | inr (v, e) ↦ ground (
      arith,
      lookup-delete t token cu.tokens,
      lookup-insert t token (record v { used = true }) cu.tokens,
      str_eq_iff t token,
    )
  ]

  pub prepare_upload-IsSpent :
      (up : Bool) (now later : ℕ) (token t id name : String) (ttl : ℤ) (opts : List PrepareOption)
      (jwt : String) (cu : Upload R)
      → t ≢ token
      → IsSpent token cu.tokens
      → IsSpent token (prepare_upload up now later t id name ttl opts jwt cu).1.tokens
  unfolding prepare_upload
  prepare_upload-IsSpent false now later token t id name ttl opts jwt cu n h = h
  prepare_upload-IsSpent true now later token t id name ttl opts jwt cu n h =
      let p =
        prepare now id (name_or name default_upload_name) (pos (effective_ttl ttl)) opts
          cu.tasks.manager in
      elim (Reply-cases p.0) [
        | inl (e, q) ↦ rw (q, prepare_upload) h
        | inr (a, q) ↦
            rw (q, prepare_upload)
              (bind_handle-IsSpent later token t a name ttl jwt
                (record cu { tasks = with_manager p.1 cu.tasks }) n h)
      ]

  pub put_handler-IsSpent :
      (is_put : Bool) (at now later : ℕ) (token id t : String) (body : Body)
      (copy : System R → System R) (cu : Upload R)
      → IsSpent token cu.tokens
      → IsSpent token (put_handler is_put at now later id t body copy cu).1.tokens
  unfolding put_handler
  put_handler-IsSpent false at now later token id t body copy cu h = h
  put_handler-IsSpent true at now later token id t body copy cu h =
      ground (arith, claim-IsSpent at token t cu h)

  pub claimed-IsSpent :
      (now : ℕ) (token : String) (cu : Upload R) → IsSpent token (claim now token cu).1.tokens
  unfolding claim
  claimed-IsSpent now token cu = elim (Option-cases (lookup token cu.tokens)) [
    | inl e ↦ ground arith
    | inr (v, e) ↦ ground (
      arith,
      lookup-delete token token cu.tokens,
      lookup-insert token token (record v { used = true }) cu.tokens,
      str_eq_self token,
    )
  ]

  pub claim-refused :
      (now : ℕ) (token : String) (cu : Upload R)
      → IsSpent token cu.tokens
      → (claim now token cu).0 ≡ none
  unfolding claim
  claim-refused now token cu h = ground arith
