-- ===== src/Behavior/Tick.antt =====
-- `ObjectBehaviorMissionController::tick`: src/behavior/object_behavior_mission_controller_tick.cpp.
pub mod Contract
use dedalus.Base.{
  ℤ, pos, Bool, true, false, not, ◌&&◌, Option, none, some, List, [], ◌∷◌, Double, nought,
  if◌then◌else◌,
}
use dedalus.Mission.{
  Vec3, EgoState, FlightCommandKind, MissionLifecycleState, MissionTickInput, MissionTickOutput,
  Status, Ticked,
}
use dedalus.Flight.{
  Flight, Reply, elapsed_at_least, land_height_m, takeoff_velocity_assist_height_m, height_of,
  command_with_kind, initial_flight, start_mission, stamp, enter, tick_prepare, tick_land,
  tick_complete, tick_abort, tick_idle,
}
use dedalus.Behavior.{GeometryPolicy, ObjectBehaviorMissionConfig, ObjectBehaviorMissionController}
use dedalus.Behavior.Camera.{
  camera_pointing_command_to_point, neutral_camera_pointing_command, emit_camera_pointing,
}
use dedalus.Behavior.Yaw.{command_from_velocity}
use dedalus.Behavior.Sequence.{reset_behavior_run}
use dedalus.Behavior.Execute.{tick_execute_mission}
use dedalus.Behavior.GoHome.{tick_go_home}

module _ {R : Type 0} ⦃d : Double R⦄ where
  open d use {lt, le, neg, abs}

  abbrev pub initial_controller : ObjectBehaviorMissionController R
  initial_controller = record {
    flight = initial_flight;
    behavior_start = pos 0;
    target_selected_emitted = false;
    behavior_start_emitted = false;
    behavior_complete_emitted = false;
    behavior_tick_sample_emitted = false;
    last_behavior_display_detail = "";
    circle_in_orbit_mode = false;
    circle_orbit_tracking = false;
    circle_previous_angle_rad = nought;
    circle_completed_orbits = nought;
    previous_selection = none;
    last_stable_yaw_valid = false;
    last_stable_yaw_rad = nought;
    execute_tick_count = 0;
    sequence_step_index = 0;
    sequence_step_start = pos 0;
    sequence_step_started = false;
    last_ego_ts_go_home = pos 0;
    go_home_estimated_frame_interval_s = nought;
  }

  -- The output that `tick` begins with; `output.state` is set last.
  abbrev pub fresh_output : MissionLifecycleState → MissionTickOutput R
  fresh_output s = record {
    state = s;
    command = none;
    camera_pointing = none;
    status = Status.none_yet;
    events = [];
  }

  -- `output.state = state_;`.
  abbrev pub close_output :
      MissionLifecycleState → Option (MissionTickOutput R) → Option (MissionTickOutput R)
  close_output s none = none
  close_output s (some o) = some (record o { state = s })

  abbrev closed :
      Ticked R (ObjectBehaviorMissionController R) → Ticked R (ObjectBehaviorMissionController R)
  closed t = record t { output = close_output t.controller.flight.state t.output }

  -- A phase of the lifecycle, with its camera output.
  abbrev replies :
      Reply R
      → ObjectBehaviorMissionController R
      → MissionTickOutput R
      → Ticked R (ObjectBehaviorMissionController R)
  replies r c o = record {
    output = some (record o { command = r.command; status = r.status });
    controller = record c { flight = r.flight };
  }

  abbrev says :
      MissionTickOutput R
      → Status
      → ObjectBehaviorMissionController R
      → Flight R
      → Ticked R (ObjectBehaviorMissionController R)
  says o s c f = record {
    output = some (record o { status = s });
    controller = record c { flight = f };
  }

  -- `case MissionLifecycleState::Takeoff`, after the camera.
  unfoldable pub tick_takeoff :
      ObjectBehaviorMissionConfig R
      → MissionTickInput R
      → R
      → ObjectBehaviorMissionController R
      → MissionTickOutput R
      → Ticked R (ObjectBehaviorMissionController R)
  tick_takeoff cfg i height c o =
      if i.finish_requested
      then (if lt land_height_m height
          then says o Status.finish_requested_land c (enter MissionLifecycleState.land i.now f)
          else says o Status.finish_requested_complete c
              (enter MissionLifecycleState.complete i.now f))
      else if le cfg.takeoff_height_m height
      then record {
        output = some (record o { status = Status.takeoff_complete });
        controller =
            reset_behavior_run i.now
              (record c { flight = enter MissionLifecycleState.execute_mission i.now f });
      }
      else if not f.takeoff_command_sent
      then record {
        output = some (record o {
          command = some (command_with_kind i.now FlightCommandKind.takeoff);
          status = Status.takeoff_request;
        });
        controller = record c {
          flight = record f { takeoff_command_sent = true; takeoff_last_command_time = i.now };
        };
      }
      else if le takeoff_velocity_assist_height_m height
      then (let (command, after) = command_from_velocity cfg c i.now climb nought in
          record {
            output = some (record o { command = some command; status = Status.takeoff_climb });
            controller = after;
          })
      else if elapsed_at_least f.takeoff_last_command_time i.now cfg.flight.takeoff_retry_interval_s
      then says o Status.waiting_for_takeoff_climb c f
      else says o Status.waiting_for_takeoff_command_settle c f
    where
      open c use {flight as f}

      climb : Vec3 R
      climb = record { x = nought; y = nought; z = neg (abs cfg.takeoff_velocity_mps) }

  module _ (policy : GeometryPolicy R) where
    -- The `switch` of `tick`.
    unfoldable pub tick_state :
        ObjectBehaviorMissionConfig R
        → MissionTickInput R
        → ObjectBehaviorMissionController R
        → MissionTickOutput R
        → MissionLifecycleState
        → Ticked R (ObjectBehaviorMissionController R)
    unfolding tick_takeoff
    tick_state cfg i c o MissionLifecycleState.prepare =
        replies (tick_prepare cfg.flight i c.flight) c (
          emit_camera_pointing
            (neutral_camera_pointing_command cfg i.now cfg.camera_pointing_prepare_mode) o)
    tick_state cfg i c o MissionLifecycleState.takeoff =
        tick_takeoff cfg i (height_of i.snapshot.ego) c (
          emit_camera_pointing
            (neutral_camera_pointing_command cfg i.now cfg.camera_pointing_takeoff_mode) o)
    tick_state cfg i c o MissionLifecycleState.execute_mission =
        tick_execute_mission policy cfg i (height_of i.snapshot.ego) c o
    tick_state cfg i c o MissionLifecycleState.go_home =
        let (output, after) = tick_go_home cfg i (height_of i.snapshot.ego) c o in
        record { output = some output; controller = after }
    tick_state cfg i c o MissionLifecycleState.land = replies (tick_land cfg.flight i c.flight) c (
        emit_camera_pointing
          (if c.flight.home_initialized
            then camera_pointing_command_to_point cfg i.now i.snapshot.ego
                c.flight.home_pose.position cfg.camera_pointing_land_mode
            else none)
          o)
    tick_state cfg i c o MissionLifecycleState.complete =
        replies (tick_complete cfg.flight i c.flight) c (
          emit_camera_pointing
            (neutral_camera_pointing_command cfg i.now cfg.camera_pointing_complete_mode) o)
    tick_state cfg i c o MissionLifecycleState.abort = replies (tick_abort c.flight) c o
    tick_state cfg i c o MissionLifecycleState.idle = replies (tick_idle i c.flight) c o

    unfoldable pub tick :
        ObjectBehaviorMissionConfig R
        → MissionTickInput R
        → ObjectBehaviorMissionController R
        → Ticked R (ObjectBehaviorMissionController R)
    tick cfg i c =
        let f = stamp i.now (start_mission i c.flight) in
        closed (tick_state cfg i (record c { flight = f }) (fresh_output c.flight.state) f.state)
