-- ===== src/Transfer/Download/Sending.antt =====
-- The bytes that a stream sends once it has started.
use mcpplane.Common.{
  ℕ, ◌+◌, ◌-◌, ◌≡◌, refl, sym, ap, ◌∙◌, true, false, none, some, Option, [], ◌++◌, leb,
  if◌then◌else◌, length, Bytes, take, Bool-cases, inl, inr,
}
use mathlib.Core.List.{append-nil, append_assoc}
use mcpplane.Transfer.Writers.{StreamError, failure, Source, done, write}
use mcpplane.Transfer.Download.{
  is_surplus, Wire, DeferredResponseWriter, write_deferred, run_source, end_stream,
}

-- The bytes that a program sends over a connection that takes `room` bytes, with a Content-Length or
-- none, after `written` bytes were written.
unfoldable pub sent : Option ℕ → ℕ → ℕ → Source → Bytes
sent declared written room (done e) = []
sent declared written room (write p next) =
    let asked = written + length p in
    let refused = sent declared asked room (next (0, some (failure "wrote too much"))) in
    let all = sent declared asked (room - length p) (next (length p, none)) in
    let part = sent declared asked 0 (next (room, some (failure "broken connection"))) in
    if is_surplus (length p) declared written
    then refused
    else if leb (length p) room
    then p ++ all
    else take room p ++ part

abbrev committed : Wire → DeferredResponseWriter
committed w = record { response_writer = w; wrote_header = true; status = 200 }

abbrev wire_of : Option ℕ → ℕ → Bytes → ℕ → Wire
wire_of declared written body room = record {
  declared = declared;
  status = some 200;
  body = body;
  room = room;
  written = written;
}

module _ (declared : Option ℕ) where
  write_refused :
      (p body : Bytes) (written room : ℕ)
      → is_surplus (length p) declared written ≡ true
      → write_deferred p (committed (wire_of declared written body room)) ≡ (
        (0, some (failure "wrote too much")),
        committed (wire_of declared (written + length p) body room),
      )
  unfolding write_deferred
  write_refused p body written room e = rw (e, if◌then◌else◌)

  write_taken :
      (p body : Bytes) (written room : ℕ)
      → is_surplus (length p) declared written ≡ false
      → leb (length p) room ≡ true
      → write_deferred p (committed (wire_of declared written body room)) ≡ (
        (length p, none),
        committed (wire_of declared (written + length p) (body ++ p) (room - length p)),
      )
  unfolding write_deferred
  write_taken p body written room s e = rw (s, e, if◌then◌else◌)

  write_broken :
      (p body : Bytes) (written room : ℕ)
      → is_surplus (length p) declared written ≡ false
      → leb (length p) room ≡ false
      → write_deferred p (committed (wire_of declared written body room)) ≡ (
        (room, some (failure "broken connection")),
        committed (wire_of declared (written + length p) (body ++ take room p) 0),
      )
  unfolding write_deferred
  write_broken p body written room s e = rw (s, e, if◌then◌else◌)

-- The stream has the status 200, these bytes and no reported error.
pub record Sent (body : Bytes) (r : Wire × Option StreamError) : Type 0 where
  pub status_ok : r.0.status ≡ some 200
  pub bytes : r.0.body ≡ body
  pub no_error : r.1 ≡ none

abbrev pub ended : Source → DeferredResponseWriter → Wire × Option StreamError
ended src dw = end_stream (run_source src dw).0 (run_source src dw).1

Sent-moved :
    {body body' : Bytes} {r r' : Wire × Option StreamError}
    → body ≡ body'
    → r ≡ r'
    → Sent body' r'
    → Sent body r
Sent-moved p q s = record {
  status_ok = ap (λ x. x.0.status) q ∙ s.status_ok;
  bytes = ap (λ x. x.0.body) q ∙ s.bytes ∙ sym p;
  no_error = ap (λ x. x.1) q ∙ s.no_error;
}

ended-write :
    (p : Bytes) (dw : DeferredResponseWriter) (next : ℕ × Option StreamError → Source)
    {dw' : DeferredResponseWriter} {r : ℕ × Option StreamError}
    → write_deferred p dw ≡ (r, dw')
    → ended (write p next) dw ≡ ended (next r) dw'
unfolding run_source
ended-write p dw next q = ap (λ x. ended (next x.0) x.1) q

module _ (declared : Option ℕ) where
  sent_refused :
      (p : Bytes) (next : ℕ × Option StreamError → Source) (body : Bytes) (written room : ℕ)
      → is_surplus (length p) declared written ≡ true
      → body ++ sent declared written room (write p next)
        ≡ body
          ++ sent declared (written + length p) room (next (0, some (failure "wrote too much")))
  unfolding sent
  sent_refused p next body written room s = rw (s, if◌then◌else◌)

  sent_taken :
      (p : Bytes) (next : ℕ × Option StreamError → Source) (body : Bytes) (written room : ℕ)
      → is_surplus (length p) declared written ≡ false
      → leb (length p) room ≡ true
      → body ++ sent declared written room (write p next)
        ≡ (body ++ p)
          ++ sent declared (written + length p) (room - length p) (next (length p, none))
  unfolding sent
  sent_taken p next body written room s e =
      rw (s, e, if◌then◌else◌)
        (sym (
          append_assoc body p
            (sent declared (written + length p) (room - length p) (next (length p, none)))))

  sent_broken :
      (p : Bytes) (next : ℕ × Option StreamError → Source) (body : Bytes) (written room : ℕ)
      → is_surplus (length p) declared written ≡ false
      → leb (length p) room ≡ false
      → body ++ sent declared written room (write p next)
        ≡ (body ++ take room p)
          ++ sent declared (written + length p) 0 (next (room, some (failure "broken connection")))
  unfolding sent
  sent_broken p next body written room s e =
      rw (s, e, if◌then◌else◌)
        (sym (
          append_assoc body (take room p) (
            sent declared (written + length p) 0
              (next (room, some (failure "broken connection"))))))

  -- Once the status is sent, no error changes it.
  pub ended-committed :
      (src : Source) (body : Bytes) (written room : ℕ)
      → Sent
          (body ++ sent declared written room src)
          (ended src (committed (wire_of declared written body room)))
  unfolding run_source end_stream sent
  ended-committed (done none) body written room = record {
    status_ok = refl;
    bytes = sym (append-nil body);
    no_error = refl;
  }
  ended-committed (done (some e)) body written room = record {
    status_ok = refl;
    bytes = sym (append-nil body);
    no_error = refl;
  }
  ended-committed (write p next) body written room =
      let dw = committed (wire_of declared written body room) in
      let asked = written + length p in
      elim (Bool-cases (is_surplus (length p) declared written)) [
        | inl s ↦
            Sent-moved (sent_refused p next body written room s)
              (ended-write p dw next (write_refused declared p body written room s))
              (ended-committed (next (0, some (failure "wrote too much"))) body asked room)
        | inr s ↦ elim (Bool-cases (leb (length p) room)) [
          | inl e ↦
              Sent-moved (sent_taken p next body written room s e)
                (ended-write p dw next (write_taken declared p body written room s e))
                (ended-committed (next (length p, none)) (body ++ p) asked (room - length p))
          | inr e ↦
              Sent-moved (sent_broken p next body written room s e)
                (ended-write p dw next (write_broken declared p body written room s e))
                (ended-committed (next (room, some (failure "broken connection")))
                  (body ++ take room p) asked 0)
        ]
      ]
