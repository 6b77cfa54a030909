-- ===== src/Examples/Runtime.antt =====
-- Concrete ticks of the runtime.
use dedalus.Base.{ℤ, pos, ◌≡◌, ◌⊎◌, refl, arith, none, some, List, [], ◌∷◌, Bool, true, false}
use dedalus.Base.Fixed.{fixed, Fixed-IsIeee, sqrt_fixed}
use dedalus.Mission.{FlightControlArmState, FlightControlState, MissionLifecycleState}
use dedalus.Flight.{Flight, initial_flight, start_mission, tick_complete}
use dedalus.Flight.Phases.{IsFresh}
use dedalus.Trajectory.Controller
use dedalus.Trajectory.Controller.{TrajectoryMissionController}
use dedalus.Behavior.{ObjectBehaviorMissionController}
use dedalus.Behavior.Tick
use dedalus.Behavior.Camera.{emit_camera_pointing, neutral_camera_pointing_command}
use dedalus.Runtime.{
  MissionRuntime, MissionRuntimeConfig, Outside, PointingReply, SinkReply, command_outcome,
  dispatch_camera_pointing, dispatch_command, point_camera, note_output, note_snapshot, tick_input,
}
use dedalus.Runtime.Tracker.{apply_to_snapshot}
use dedalus.Runtime.Tick.{after_tick, tick_once, tick_snapshot}
use dedalus.Runtime.Loop.{Step, run_steps}
use dedalus.Runtime.Dispatch.{Accounts, tick_controller, tick_once-Accounts}
use dedalus.Runtime.Overruns.{Grows, Overruns, overruns_finish, run_rounds, run_steps-Grows}
use dedalus.Runtime.Settles.{object_behavior_settles}
use dedalus.Examples.{behavior_config, east, metres, snapshot, trajectory_config}

abbrev runtime_config : MissionRuntimeConfig
runtime_config = record {
  verbosity = 0;
  max_consecutive_inflight_overruns = 1;
  stale_snapshot_warn_ticks = 3;
}

abbrev untracked : FlightControlState
untracked = record {
  arm_state = FlightControlArmState.unknown;
  updated_at = pos 0;
  last_arm_request_at = pos 0;
  last_disarm_request_at = pos 0;
  status = "";
}

abbrev running_with : {C : Type 0} → C → MissionRuntime ℤ C
running_with c = record {
  controller = c;
  running = true;
  finish_requested = false;
  terminal_settled = false;
  loop_failed = false;
  tick_count = 0;
  tick_command_wait_us = 0;
  last_state = MissionLifecycleState.idle;
  tracker = untracked;
  last_command_result = none;
  last_camera_pointing_result = none;
  consecutive_inflight_overruns = 0;
  last_snapshot_ts_ns = pos 0;
  consecutive_stale_ticks = 0;
  stale_cr_pending = false;
  events = [];
  sent = [];
  handed = [];
  pointed = [];
}

-- A flight at 20 m with the sinks in order, armed or not.
abbrev outside : Bool → Outside ℤ
outside armed = record {
  latest = some (snapshot [] armed (metres 20));
  clock = pos 5_000_000_000;
  send = λ m. SinkReply.returned (record { kind = m.kind; success = true; status = "ok" });
  send_us = 400;
  handoff = some (λ m. true);
  point = λ m. PointingReply.returned (record { success = true; status = "ok" });
}

abbrev flying_in : MissionLifecycleState → Flight ℤ
flying_in s = record initial_flight {
  state = s;
  mission_started = true;
  home_initialized = true;
  home_pose = record {
    position = record { x = metres 90; y = pos 0; z = pos 0 };
    rotation_rpy = record { x = pos 0; y = pos 0; z = pos 0 };
  };
}

flying_in-IsFresh : (s : MissionLifecycleState) → IsFresh (flying_in s)
flying_in-IsFresh s = ground arith

abbrev homeward : TrajectoryMissionController ℤ
homeward = record Controller.initial_controller { flight = flying_in MissionLifecycleState.go_home }

abbrev landed : ObjectBehaviorMissionController ℤ
landed = record Tick.initial_controller { flight = flying_in MissionLifecycleState.complete }

abbrev pending : FlightControlState
pending = record untracked { arm_state = FlightControlArmState.arm_requested }

-- The handoff throws.
abbrev cut_off : Outside ℤ
cut_off = record (outside true) { handoff = some (λ m. false) }

tick_once-Accounts_example :
    Accounts runtime_config
      (Tick.tick east behavior_config)
      cut_off.latest
      cut_off.handoff
      (running_with landed)
      (tick_once runtime_config (Tick.tick east behavior_config) cut_off (running_with landed))
      (tick_controller runtime_config
        (Tick.tick east behavior_config)
        cut_off
        (running_with landed))
tick_once-Accounts_example =
    tick_once-Accounts runtime_config (Tick.tick east behavior_config) cut_off (running_with landed)

abbrev steps : List (Step ℤ)
steps = Step.starts ∷ Step.iterates (outside true) 900 ∷ Step.requests_finish ∷ Step.stops ∷ []

run_steps-Grows_example :
    Grows runtime_config 100_000 (Controller.tick trajectory_config) (running_with homeward) (
      run_steps runtime_config 100_000
        (Controller.tick trajectory_config)
        steps
        (running_with homeward))
run_steps-Grows_example =
    run_steps-Grows runtime_config 100_000 (Controller.tick trajectory_config) steps
      (running_with homeward)

late :
    Overruns runtime_config 100_000
      (Controller.tick trajectory_config)
      (outside true)
      200_000
      (running_with homeward)
unfolding tick_once tick_snapshot after_tick note_snapshot note_output tick_input dispatch_command
    command_outcome Controller.tick Controller.tick_state Controller.tick_go_home start_mission
    sqrt_fixed apply_to_snapshot
late = record { running = refl; gives = refl; inflight = refl; late = refl }

overruns_finish_example :
    (run_rounds runtime_config 100_000
      (Controller.tick trajectory_config)
      ((outside true, 200_000) ∷ [])
      (running_with homeward)).finish_requested
    ≡ true
overruns_finish_example =
    overruns_finish runtime_config 100_000 (Controller.tick trajectory_config)
      ((outside true, 200_000) ∷ []) (running_with homeward) (omega arith) (late, tt) (omega arith)

settled :
    (tick_once runtime_config
      (Tick.tick east behavior_config)
      (outside false)
      (running_with landed)).runtime.terminal_settled
    ≡ true
unfolding tick_once tick_snapshot after_tick note_snapshot note_output tick_input
    dispatch_camera_pointing point_camera Tick.tick Tick.tick_state tick_complete start_mission
    apply_to_snapshot emit_camera_pointing neutral_camera_pointing_command
settled = refl

object_behavior_settles_example :
    ((true ≡ true) × (false ≡ false))
    ⊎ ((tick_once runtime_config
          (Tick.tick east behavior_config)
          (outside false)
          (running_with landed)).runtime.last_state
        ≡ MissionLifecycleState.abort)
object_behavior_settles_example =
    object_behavior_settles Fixed-IsIeee east behavior_config runtime_config (outside false)
      (snapshot [] false (metres 20)) (running_with landed) refl
      (flying_in-IsFresh MissionLifecycleState.complete) refl settled
