-- ===== src/Transfer/Endpoint/Bodies.antt =====
-- What becomes of an upload whose body does not arrive in full.
use mcpplane.Common.{
  ℕ, ◌≡◌, ◌≢◌, inl, inr, refl, String, Bool, false, none, some, lookup, arith, Option-cases,
  lookup-insert, str_eq_self,
}
use mcpplane.Transfer.Tasks.Types.{UploadTaskManager, is_active, close_reader}
use mcpplane.Transfer.Tasks.Methods.{accepted, cancel, cancel_task}
use mcpplane.Transfer.Tasks.System.{System}
use mcpplane.Transfer.Endpoint.{
  Claimed, Body, received, too_large, broken, accepted_upload, begin_upload, finish_put,
  put_claimed,
}
use mcpplane.Transfer.Endpoint.Spent.{Reply-cases}

module _ {R : Type 0} where
  -- The handle has a queued or running upload.
  abbrev pub active : String → UploadTaskManager R → Bool
  active id m = elim (lookup id m.tasks) [ none ↦ false | some t ↦ is_active t.task.state ]

  cancel-active :
      (now : ℕ) (id : String) (m : UploadTaskManager R) → active id (cancel now id m).1 ≡ false
  unfolding cancel cancel_task close_reader
  cancel-active now id m = elim (Option-cases (lookup id m.tasks)) [
    | inl e ↦ rw (e, cancel) (ground arith)
    | inr (t, e) ↦
        ground (arith, lookup-insert id id (cancel_task now id t).1 m.tasks, str_eq_self id)
  ]

  finish_put-active :
      (now : ℕ) (id : String) (body : Body) (s : System R)
      → body ≢ received
      → active id (finish_put now id body s).1.manager ≡ false
  unfolding finish_put
  finish_put-active now id received s n = absurd (n refl)
  finish_put-active now id too_large s n = cancel-active now id s.manager
  finish_put-active now id broken s n = cancel-active now id s.manager

  -- A PUT whose upload was begun under a handle and whose body was not received in full leaves the
  -- handle without a queued or running upload, whatever the rest of the program did during the
  -- copy.
  pub put_claimed-active :
      (now later : ℕ) (id h : String) (body : Body) (copy : System R → System R) (c : Claimed)
      (s : System R)
      → body ≢ received
      → (begin_upload now id c s).0 ≡ accepted h
      → active h (put_claimed now later id body copy c s).1.manager ≡ false
  unfolding put_claimed
  put_claimed-active now later id h body copy c s n e =
      rw (e, put_claimed) (finish_put-active later h body (copy (begin_upload now id c s).1) n)

  -- Only a PUT whose body was received in full is answered with an accepted upload, and then with
  -- the handle under which its upload was begun.
  pub put_claimed-accepted :
      (now later : ℕ) (id h : String) (body : Body) (copy : System R → System R) (c : Claimed)
      (s : System R)
      → (put_claimed now later id body copy c s).0 ≡ accepted_upload h
      → (body ≡ received) × ((begin_upload now id c s).0 ≡ accepted h)
  unfolding put_claimed finish_put
  put_claimed-accepted now later id h body copy c s e =
      elim (Reply-cases (begin_upload now id c s).0) [
        | inl (x, q) ↦ absurd (ground arith)
        | inr (a, q) ↦ ground arith
      ]
