-- ===== src/Session/Advance.antt =====
-- session/session.go: AdvanceSession. The session's own mutex makes the call one step. The library
-- looplab/fsm is the interface `Machine`; a step's handler is a function that the application
-- gives, and may change the session that it is handed.
pub mod Progress
use mcpplane.Common.{
  ℕ, ◌≡◌, ◌≢◌, refl, String, Bool, true, false, Option, none, some, Dict, lookup, str_eq,
  if◌then◌else◌, arith, Option-cases, inl, inr,
}
use mcpplane.Session.Store.{StepDef, Session}

-- What the code uses of looplab/fsm: the current state and the firing of an event, which fails with
-- an error of the library.
pub record Machine : Type 1 where
  pub Fsm : Type 0
  pub FsmError : Type 0
  pub current : Fsm → String
  pub fire : String → Fsm → Fsm × Option FsmError

-- What an application gives: its handlers and its schema functions. A handler returns the session
-- that it leaves behind, and an information text or an error.
pub record Handlers (W F H C : Type 0) : Type 1 where
  pub Input : Type 0
  pub Failure : Type 0
  pub Schema : Type 0
  pub handle : H → Session W F H C → Input → Session W F H C × (String × Option Failure)
  pub schema_of : C → Session W F H C → Schema

-- The results of an advance: an information text or success, no step, a handler's error, or an
-- event that the machine refuses.
pub data Outcome (E X : Type 0) : Type 0 where
  returned : String → Outcome E X
  no_active_step : Outcome E X
  handler_failed : E → Outcome E X
  event_failed : String → X → Outcome E X

module _ (m : Machine) {W H C : Type 0} (a : Handlers W m.Fsm H C) where
  open m use {Fsm, FsmError, current, fire}
  open a use {Input, Failure, Schema, handle, schema_of}

  unfoldable pub current_step : Session W Fsm H C → Option (StepDef H C)
  current_step s = lookup (current s.fsm) s.step_map

  unfoldable pub next_schema : Session W Fsm H C → Option Schema
  next_schema s = elim (current_step s) [
    | none ↦ none
    | some step ↦ elim step.schema [ none ↦ none | some c ↦ some (schema_of c s) ]
  ]

  -- The call of `FSM.Event`, and what it returns.
  unfoldable pub fire_event :
      String → Session W Fsm H C → Session W Fsm H C × Outcome Failure FsmError
  fire_event event s =
      let (f, failure) = fire event s.fsm in
      elim failure [
        | none ↦ (record s { fsm = f }, returned "")
        | some x ↦ (record s { fsm = f }, event_failed event x)
      ]

  -- What follows a handler's return, on the session that it left behind.
  unfoldable pub after_handler :
      String
      → Session W Fsm H C × (String × Option Failure)
      → Session W Fsm H C × Outcome Failure FsmError
  unfolding fire_event
  after_handler event (s, (info, some e)) = (s, handler_failed e)
  after_handler event (s, (info, none)) =
      if str_eq info "" then fire_event event s else (s, returned info)

  unfoldable pub advance_session :
      Session W Fsm H C → Input → Session W Fsm H C × Outcome Failure FsmError
  unfolding current_step fire_event after_handler
  advance_session s i = elim (current_step s) [
    | none ↦ (s, no_active_step)
    | some step ↦ elim step.handler [
      | none ↦ fire_event step.event s
      | some h ↦ after_handler step.event (handle h s i)
    ]
  ]
