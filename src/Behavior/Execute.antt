-- ===== src/Behavior/Execute.antt =====
-- The mission itself: `tick_execute_mission` of
-- src/behavior/object_behavior_mission_controller_tick_execute.cpp.
pub mod Effect
pub mod Finish
use dedalus.Base.{
  ℤ, pos, ℕ, ◌+◌, ◌%◌, ltb, ◌==◌, Bool, true, false, not, ◌&&◌, ◌||◌, Option, none, some, List, [],
  ◌∷◌, ◌++◌, String, str_eq, Double, nought, if◌then◌else◌,
}
use dedalus.Mission.{
  Vec3, EgoState, ControllerEventKind, MissionLifecycleState, MissionTickInput, MissionTickOutput,
  Status, Ticked,
}
use dedalus.Flight.{Flight, zero_vec, enter, seconds_between, elapsed_at_least}
use dedalus.Target.{TargetSelection, TargetSelectionStatus, select}
use dedalus.Behavior.{
  BehaviorType, BehaviorSpec, GeometryPolicy, ObjectBehaviorMissionConfig,
  ObjectBehaviorMissionController, ObjectBehaviorYawMode,
}
use dedalus.Behavior.Geometry.{clamp_velocity, apply_altitude_policy}
use dedalus.Behavior.Camera.{camera_pointing_command_for_behavior, emit_camera_pointing}
use dedalus.Behavior.Yaw.{command_from_velocity, command_from_behavior_velocity}
use dedalus.Behavior.Sequence.{
  is_circle, update_circle_orbit_progress, sequence_active, active_behavior,
  active_behavior_is_last_sequence_step, yaw_mode_for_behavior, reset_sequence_step,
  completion_elapsed,
}

abbrev is_approach : BehaviorType → Bool
is_approach BehaviorType.approach = true
is_approach _ = false

abbrev is_terminal : BehaviorType → Bool
is_terminal BehaviorType.go_home = true
is_terminal BehaviorType.go_home_land = true
is_terminal BehaviorType.land = true
is_terminal _ = false

-- `to_string(TargetSelectionStatus)`.
pub to_string : TargetSelectionStatus → String
to_string TargetSelectionStatus.selected = "selected"
to_string TargetSelectionStatus.reacquiring = "reacquiring"
to_string TargetSelectionStatus.lost = "lost"
to_string TargetSelectionStatus.no_candidates = "no_candidates"
to_string TargetSelectionStatus.invalid_spec = "invalid_spec"

module _ {R : Type 0} ⦃d : Double R⦄ where
  abbrev event : ControllerEventKind → MissionTickOutput R → MissionTickOutput R
  event kind o = record o { events = o.events ++ (kind ∷ []) }

  abbrev event_if : Bool → ControllerEventKind → MissionTickOutput R → MissionTickOutput R
  event_if b kind o = if b then event kind o else o

  -- The events of a target that is seen, and the members that remember them.
  pub note_target :
      ObjectBehaviorMissionConfig R
      → ℤ
      → TargetSelection R
      → ObjectBehaviorMissionController R
      → ObjectBehaviorMissionController R
  note_target cfg now selection c = record c {
    previous_selection = some selection;
    target_selected_emitted = true;
    behavior_start_emitted = true;
    behavior_start = if c.behavior_start_emitted then c.behavior_start else now;
  }

  note_target_events :
      ObjectBehaviorMissionConfig R
      → ObjectBehaviorMissionController R
      → MissionTickOutput R
      → MissionTickOutput R
  note_target_events cfg c o =
      let selected =
        event_if (not c.target_selected_emitted) ControllerEventKind.target_selected o in
      let stepped =
        event_if (not c.behavior_start_emitted && sequence_active cfg)
          ControllerEventKind.sequence_step_start selected in
      event_if (not c.behavior_start_emitted) ControllerEventKind.behavior_start stepped

module _ {R : Type 0} ⦃d : Double R⦄ (policy : GeometryPolicy R) where
  open d use {lt, le, add}
  open policy use {
    FollowGeometry, default_geometry, circling, step_complete, orbit_angle_rad, desired_velocity,
    with_orbits, circle_geometry, behavior_velocity, apply_altitude_profile,
    behavior_detail_for_tick, object_behavior_status,
  }

  -- The velocity before the altitude policy, the geometry, and `orbit_count_complete`.
  pub record Steering : Type 0 where
    pub raw_velocity : Vec3 R
    pub geometry : FollowGeometry
    pub orbit_done : Bool
    pub controller : ObjectBehaviorMissionController R

  pub steer :
      ObjectBehaviorMissionController R → EgoState R → TargetSelection R → BehaviorSpec R → Steering
  steer c ego selection behavior =
      if is_circle behavior.behavior_type
      then (let geometry = circle_geometry ego selection behavior c.circle_in_orbit_mode in
          let latched = if circling geometry then record c { circle_in_orbit_mode = true } else c in
          let (done, after) =
            update_circle_orbit_progress behavior (circling geometry) (orbit_angle_rad geometry)
              latched in
          record {
            raw_velocity =
                clamp_velocity (desired_velocity geometry) behavior.max_speed_mps
                  behavior.max_vertical_speed_mps;
            geometry = with_orbits geometry after.circle_completed_orbits behavior.orbit_count;
            orbit_done = done;
            controller = after;
          })
      else (let (velocity, geometry) = behavior_velocity ego selection behavior in
          let (done, after) =
            update_circle_orbit_progress behavior (circling geometry) (orbit_angle_rad geometry)
              c in
          record {
            raw_velocity = velocity;
            geometry = with_orbits geometry after.circle_completed_orbits behavior.orbit_count;
            orbit_done = done;
            controller = after;
          })

  pub with_profile : Steering → EgoState R → BehaviorSpec R → R → Steering
  with_profile s ego behavior elapsed =
      let (velocity, geometry) =
        apply_altitude_profile s.raw_velocity ego behavior elapsed s.geometry in
      record s { raw_velocity = velocity; geometry = geometry }

  -- Nothing is steered when the behaviour is over.
  pub steering_of :
      Bool
      → ObjectBehaviorMissionController R
      → MissionTickInput R
      → TargetSelection R
      → BehaviorSpec R
      → Steering
  unfolding steer with_profile
  steering_of over c i selection behavior =
      let ego = i.snapshot.ego in
      if over
      then record {
        raw_velocity = zero_vec;
        geometry = default_geometry;
        orbit_done = false;
        controller = c;
      }
      else with_profile (steer c ego selection behavior) ego behavior
          (seconds_between c.sequence_step_start i.now)

  -- `step_complete` with its parts; `behavior` is the active behaviour.
  pub step_is_complete :
      ObjectBehaviorMissionConfig R → MissionTickInput R → BehaviorSpec R → Steering → Bool
  step_is_complete cfg i behavior s =
      let duration_complete =
        lt nought behavior.duration_s
        && elapsed_at_least s.controller.sequence_step_start i.now behavior.duration_s in
      let approach_complete = is_approach behavior.behavior_type && step_complete s.geometry in
      sequence_active cfg
      && (duration_complete
          || s.orbit_done
          || approach_complete
          || is_terminal behavior.behavior_type)

  -- The next step of the sequence begins.
  pub advance_sequence :
      ℤ
      → ObjectBehaviorMissionController R
      → MissionTickOutput R
      → Ticked R (ObjectBehaviorMissionController R)
  advance_sequence now c o = record {
    output =
        some
          (record (event ControllerEventKind.sequence_step_start
            (event ControllerEventKind.sequence_step_complete o)) {
              status = Status.object_behavior_sequence_step_complete;
            });
    controller =
        reset_sequence_step now (record c { sequence_step_index = c.sequence_step_index + 1 });
  }

  -- The behaviour is complete, and the drone goes home.
  pub finish_behavior :
      Bool
      → ℤ
      → ObjectBehaviorMissionController R
      → MissionTickOutput R
      → Ticked R (ObjectBehaviorMissionController R)
  finish_behavior finish_requested now c o = record {
    output =
        some
          (record (event_if (not c.behavior_complete_emitted) ControllerEventKind.behavior_complete
            o) {
              status =
                  if finish_requested
                  then Status.object_behavior_finish_requested
                  else Status.object_behavior_complete;
            });
    controller = record c {
      behavior_complete_emitted = true;
      flight = enter MissionLifecycleState.go_home now c.flight;
    };
  }

  -- The events of a tick that flies.
  sample_events :
      ObjectBehaviorMissionConfig R
      → String
      → ObjectBehaviorMissionController R
      → MissionTickOutput R
      → MissionTickOutput R
  sample_events cfg detail c o =
      let sampled =
        event_if
          (not c.behavior_tick_sample_emitted || not (str_eq detail c.last_behavior_display_detail))
          ControllerEventKind.behavior_tick_sample o in
      event_if
        (ltb 0 cfg.debug_every_n_ticks && c.execute_tick_count % cfg.debug_every_n_ticks == 0)
        ControllerEventKind.behavior_debug sampled

  -- The behaviour goes on, with a velocity command.
  pub fly :
      ObjectBehaviorMissionConfig R
      → MissionTickInput R
      → R
      → TargetSelection R
      → BehaviorSpec R
      → ObjectBehaviorYawMode
      → Steering
      → MissionTickOutput R
      → Ticked R (ObjectBehaviorMissionController R)
  unfolding sample_events
  fly cfg i height selection behavior yaw_mode s o =
      let velocity = apply_altitude_policy s.raw_velocity cfg behavior height in
      let (command, c) =
        command_from_behavior_velocity cfg s.controller i.now velocity i.snapshot.ego selection
          (add cfg.yaw_offset_rad behavior.yaw_offset_rad) yaw_mode in
      let detail = behavior_detail_for_tick behavior s.geometry in
      record {
        output = some (record (sample_events cfg detail c o) {
          command = some command;
          status = Status.object_behavior_status (object_behavior_status behavior s.geometry);
        });
        controller = record c {
          behavior_tick_sample_emitted = true;
          last_behavior_display_detail = detail;
        };
      }

  -- What follows `step_complete`, with the camera's output `o`.
  pub execute_steered :
      ObjectBehaviorMissionConfig R
      → MissionTickInput R
      → R
      → TargetSelection R
      → BehaviorSpec R
      → Bool
      → Steering
      → MissionTickOutput R
      → Ticked R (ObjectBehaviorMissionController R)
  execute_steered cfg i height selection behavior duration_complete s o =
      let complete = step_is_complete cfg i behavior s in
      let last = active_behavior_is_last_sequence_step cfg s.controller in
      if complete && not last
      then advance_sequence i.now s.controller o
      else elim (yaw_mode_for_behavior cfg behavior) [
        | none ↦ record { output = none; controller = s.controller }
        | some yaw_mode ↦
            if i.finish_requested || duration_complete || s.orbit_done || (complete && last)
            then finish_behavior i.finish_requested i.now s.controller o
            else fly cfg i height selection behavior yaw_mode s o
      ]

  -- `if (selection.selected)`: `c` has the target noted, `o` the events so far.
  pub execute_selected :
      ObjectBehaviorMissionConfig R
      → MissionTickInput R
      → R
      → TargetSelection R
      → ObjectBehaviorMissionController R
      → MissionTickOutput R
      → Ticked R (ObjectBehaviorMissionController R)
  execute_selected cfg i height selection c o =
      let duration_complete = completion_elapsed cfg c i.now in
      let control =
        if cfg.zero_target_velocity
        then record selection { velocity_local = zero_vec }
        else selection in
      let behavior = active_behavior cfg c in
      let pointed =
        emit_camera_pointing
          (camera_pointing_command_for_behavior cfg c.flight i.now i.snapshot.ego control behavior)
          o in
      let s = steering_of (i.finish_requested || duration_complete) c i control behavior in
      execute_steered cfg i height control behavior duration_complete s pointed

  pub execute_unselected :
      ObjectBehaviorMissionConfig R
      → MissionTickInput R
      → TargetSelection R
      → ObjectBehaviorMissionController R
      → MissionTickOutput R
      → Ticked R (ObjectBehaviorMissionController R)
  execute_unselected cfg i selection c o =
      if i.finish_requested
      then record {
        output = some (record o { status = Status.object_behavior_finish_requested_no_target });
        controller = record c { flight = enter MissionLifecycleState.go_home i.now c.flight };
      }
      else (let (command, after) = command_from_velocity cfg c i.now zero_vec nought in
          record {
            output = some (record o {
              command = some command;
              status = Status.object_behavior_waiting_for_target (to_string selection.status);
            });
            controller = after;
          })

  pub tick_execute_mission :
      ObjectBehaviorMissionConfig R
      → MissionTickInput R
      → R
      → ObjectBehaviorMissionController R
      → MissionTickOutput R
      → Ticked R (ObjectBehaviorMissionController R)
  unfolding note_target note_target_events
  tick_execute_mission cfg i height c o =
      let counted = record c { execute_tick_count = c.execute_tick_count + 1 } in
      let selection = select i.snapshot cfg.behavior_spec.target c.previous_selection in
      if selection.selected
      then execute_selected cfg i height selection (note_target cfg i.now selection counted)
          (note_target_events cfg counted o)
      else execute_unselected cfg i selection counted o
