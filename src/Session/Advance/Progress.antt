-- ===== src/Session/Advance/Progress.antt =====
-- What makes a wizard advance: the machine moves by the events of the steps that succeeded, and by
-- nothing else.
use mcpplane.Common.{
  ◌≡◌, refl, sym, ap, ◌∙◌, String, Bool, true, false, Option, none, some, lookup, str_eq,
  if◌then◌else◌, arith, Option-cases, inl, inr, List, [], ◌∷◌, ◌++◌,
}
use mcpplane.Session.Store.{StepDef, Session}
use mcpplane.Session.Advance.{Machine, Handlers, returned, current_step, advance_session}

module _ (m : Machine) {W H C : Type 0} (a : Handlers W m.Fsm H C) where
  open m use {Fsm, FsmError, current, fire}
  open a use {Input, Failure, handle}

  -- Handlers leave the machine alone: the code hands them the session, and its event is fired by
  -- AdvanceSession only.
  abbrev pub LeavesMachine : Type 0
  LeavesMachine = (h : H) (s : Session W Fsm H C) (i : Input) → (handle h s i).0.fsm ≡ s.fsm

  -- The step's handler has nothing to report, or there is none.
  abbrev pub succeeds : Option H → Session W Fsm H C → Input → Bool
  succeeds none s i = true
  succeeds (some h) s i = elim (handle h s i).1.1 [
    | none ↦ str_eq (handle h s i).1.0 ""
    | some e ↦ false
  ]

  -- The events that one call fires.
  abbrev pub fired : Option (StepDef H C) → Session W Fsm H C → Input → List String
  fired none s i = []
  fired (some step) s i = if succeeds step.handler s i then step.event ∷ [] else []

  abbrev pub fire_all : List String → Fsm → Fsm
  fire_all [] f = f
  fire_all (e ∷ es) f = fire_all es (fire e f).0

  fire_all-append :
      (es ds : List String) (f : Fsm) → fire_all (es ++ ds) f ≡ fire_all ds (fire_all es f)
  fire_all-append [] ds f = refl
  fire_all-append (e ∷ es) ds f = fire_all-append es ds (fire e f).0

  advance-fired :
      (s : Session W Fsm H C) (i : Input)
      → LeavesMachine
      → (advance_session m a s i).0.fsm ≡ fire_all (fired (current_step m a s) s i) s.fsm
  unfolding advance_session
  advance-fired s i l = elim (Option-cases (lookup (current s.fsm) s.step_map)) [
    | inl e ↦ rw (e, current_step) (ground arith)
    | inr (step, e) ↦ elim (Option-cases step.handler) [
      | inl e' ↦ rw e (rw e' (ground arith))
      | inr (h, e') ↦ rw e (rw e' (ground (arith, l h s i)))
    ]
  ]

  -- An advance that returns success found a step whose event the machine accepted, and left the
  -- machine where that event leads.
  pub advance-success :
      (s : Session W Fsm H C) (i : Input)
      → LeavesMachine
      → (advance_session m a s i).1 ≡ returned ""
      → (step : StepDef H C) × (current_step m a s ≡ some step)
        × ((fire step.event s.fsm).1 ≡ none)
        × ((advance_session m a s i).0.fsm ≡ (fire step.event s.fsm).0)
  unfolding advance_session
  advance-success s i l r = elim (Option-cases (lookup (current s.fsm) s.step_map)) [
    | inl e ↦ absurd (ground arith)
    | inr (step, e) ↦ elim (Option-cases step.handler) [
      | inl e' ↦ (step, e, ground arith, ground arith)
      | inr (h, e') ↦ (step, e, ground (arith, l h s i), ground (arith, l h s i))
    ]
  ]

  -- The calls of one wizard, in order.
  pub run : List Input → Session W Fsm H C → Session W Fsm H C
  run [] s = s
  run (i ∷ is) s = run is (advance_session m a s i).0

  -- The events of the steps that succeeded, in order.
  pub trace : List Input → Session W Fsm H C → List String
  trace [] s = []
  trace (i ∷ is) s = fired (current_step m a s) s i ++ trace is (advance_session m a s i).0

  -- After any inputs the machine stands where the events of the steps that succeeded lead, each
  -- fired once and in order: a failed or an informational attempt has no effect on it.
  pub run-trace :
      (is : List Input) (s : Session W Fsm H C)
      → LeavesMachine
      → (run is s).fsm ≡ fire_all (trace is s) s.fsm
  unfolding run trace
  run-trace [] s l = refl
  run-trace (i ∷ is) s l =
      run-trace is (advance_session m a s i).0 l
      ∙ ap (fire_all (trace is (advance_session m a s i).0)) (advance-fired s i l)
      ∙ sym (
          fire_all-append (fired (current_step m a s) s i) (trace is (advance_session m a s i).0)
            s.fsm)
