-- ===== src/Examples/Sessions.antt =====
-- interaction/session_controller.py at concrete sessions.
use capability_runner.Prelude.{
  ℕ, String, ◌≡◌, ◌≢◌, ◌⊎◌, ◌<◌, refl, true, none, some, List, [], ◌∷◌, ok, lookup, Result, arith,
}
use capability_runner.Contracts.Sessions.{
  automation_owner, operator_owner, automation_controlled, pause_requested, operator_controlled,
  resume_requested, terminal, control_state_eq,
}
use capability_runner.Session.{
  fresh_record, open_session, get_record, with_record, request_pause, grant_human_control,
  begin_automation_dispatch,
}
use capability_runner.Session.Transitions.{
  SessionRecord, automation, operator, request_pause_in, grant_human_control_in, ensure_not_stopped,
  automation_guard, operator_guard, enter_automation, enter_operator, owned_by_operator,
}
use capability_runner.Session.Steps.{Reach, here, next, pause, grant, enter_auto, enter_op}
use capability_runner.Session.Exclusion.{automation_in_flight, operator_in_flight}
use capability_runner.Session.Staleness.{Refused, pause_revokes}
use capability_runner.Session.Handoff.{handoff, handoff_restores}
use capability_runner.Session.Traces.{
  Call, open_call, pause_call, grant_call, enter_automation_call, perform, perform_all, Apart,
  no_overlap,
}

abbrev opened : SessionRecord
opened = fresh_record "s1" "run-1"

abbrev inside : SessionRecord
inside = record opened { dispatch_lock = some (automation 0) }

inside-reached : Reach "s1" opened inside
unfolding enter_automation automation_guard ensure_not_stopped control_state_eq
    capability_runner.Prelude.nat_eq
inside-reached = next here (enter_auto 0 refl refl)

automation_in_flight_example :
    (inside.state.owner ≡ automation_owner "run-1")
    × (inside.state.control_state ≢ operator_controlled)
    × (inside.state.control_state ≢ resume_requested)
    × (((inside.state.control_state ≡ automation_controlled)
          × (inside.state.control_generation ≡ 0))
        ⊎ (0 < inside.state.control_generation))
automation_in_flight_example = automation_in_flight inside-reached refl

abbrev paused : SessionRecord
paused = record opened {
  state = record (opened.state) { control_state = pause_requested; control_generation = 1 };
}

opened-paused : request_pause_in "s1" opened ≡ ok paused
unfolding request_pause_in ensure_not_stopped control_state_eq
opened-paused = refl

abbrev granted : SessionRecord
granted = record opened {
  state = record (opened.state) {
    control_state = operator_controlled;
    owner = operator_owner "op-1" none;
    control_generation = 2;
  };
}

paused-granted : grant_human_control_in "s1" "op-1" none paused ≡ ok granted
unfolding grant_human_control_in ensure_not_stopped control_state_eq
paused-granted = refl

abbrev operating : SessionRecord
operating = record granted { dispatch_lock = some (operator 2 "op-1") }

granted-operating : enter_operator "s1" 2 "op-1" granted ≡ ok operating
unfolding enter_operator operator_guard ensure_not_stopped owned_by_operator control_state_eq
    capability_runner.Prelude.nat_eq capability_runner.Prelude.string_eq
granted-operating = refl

operating-reached : Reach "s1" opened operating
operating-reached =
    next (next (next here (pause opened-paused)) (grant "op-1" none paused-granted))
      (enter_op 2 "op-1" refl granted-operating)

operator_in_flight_example :
    (owned_by_operator "op-1" operating.state.owner ≡ true)
    × (((operating.state.control_state ≡ operator_controlled)
          × (operating.state.control_generation ≡ 2))
        ⊎ (operating.state.control_state ≡ terminal))
operator_in_flight_example = operator_in_flight operating-reached refl

abbrev some_calls : List Call
some_calls =
    open_call "s1" "run-1"
    ∷ enter_automation_call "s1" 0
    ∷ pause_call "s1"
    ∷ grant_call "s1" "op-1" none
    ∷ []

abbrev paused_inside : SessionRecord
paused_inside = record paused { dispatch_lock = some (automation 0) }

some_calls-paused_inside : lookup "s1" (perform_all some_calls []) ≡ some paused_inside
unfolding perform_all perform open_session with_record get_record request_pause grant_human_control
    begin_automation_dispatch request_pause_in grant_human_control_in enter_automation
    automation_guard ensure_not_stopped lookup capability_runner.Prelude.insert
    capability_runner.Prelude.string_eq control_state_eq capability_runner.Prelude.nat_eq
some_calls-paused_inside = refl

no_overlap_example : Apart paused_inside.dispatch_lock paused_inside.state
no_overlap_example = no_overlap some_calls "s1" paused_inside some_calls-paused_inside

pause_revokes_example :
    Refused (enter_automation "s1" 0 granted) × Refused (enter_operator "s1" 0 "op-1" granted)
pause_revokes_example =
    pause_revokes opened "op-1" refl opened-paused (next here (grant "op-1" none paused-granted))

handoff_restores_example :
    handoff "s1" "op-1" none opened
    ≡ ok (record opened { state = record (opened.state) { control_generation = 3 } })
handoff_restores_example = handoff_restores "s1" "op-1" none opened refl refl refl
