-- ===== src/Trajectory/Controller.antt =====
-- The controller that flies a velocity trajectory:
-- src/behavior/trajectory_mission_controller.cpp and src/behavior/trajectory_mission_controller_tick.cpp.
pub mod Contract
pub mod Advance
use dedalus.Base.{
  pos, ℕ, suc, ◌+◌, Bool, true, false, not, Option, none, some, List, [], ◌∷◌, Double, nought,
  max_double, ◌||◌, if◌then◌else◌, leb, length, get_elem?, drop, ℤ, ◌≡◌,
}
use dedalus.Mission.{
  Vec3, FlightCommandKind, MissionLifecycleState, YawSource, VelocityCommand, MissionTickInput,
  MissionTickOutput, Status, Ticked,
}
use dedalus.Flight.{
  Flight, FlightConfig, Reply, zero_vec, seconds_between, elapsed_at_least, land_height_m,
  takeoff_velocity_assist_height_m, height_of, command_with_kind, initial_flight, start_mission,
  stamp, enter, tick_prepare, tick_land, tick_complete, tick_abort, tick_idle,
}
use dedalus.Trajectory.{TrajectorySegment, velocity_at, default_hold}

pub record TrajectoryMissionConfig (R : Type 0) : Type 0 where
  pub flight : FlightConfig R
  pub safe_height_m : R
  pub takeoff_velocity_mps : R
  pub go_home_velocity_mps : R
  pub yaw_offset_rad : R
  pub trajectory : List (TrajectorySegment R)

pub record TrajectoryMissionController (R : Type 0) : Type 0 where
  pub flight : Flight R
  pub segment_index : ℕ
  pub segment_elapsed_s : R

module _ {R : Type 0} ⦃d : Double R⦄ where
  open d use {lt, le, add, sub, mul, div, of_int, decimal, sqrt, atan2, abs, neg}

  -- The constructor.
  pub with_trajectory : TrajectoryMissionConfig R → TrajectoryMissionConfig R
  with_trajectory cfg = elim cfg.trajectory [
    | [] ↦ record cfg { trajectory = default_hold }
    | _ ∷ _ ↦ cfg
  ]

  abbrev pub initial_controller : TrajectoryMissionController R
  initial_controller = record {
    flight = initial_flight;
    segment_index = 0;
    segment_elapsed_s = nought;
  }

  pub norm_xy : Vec3 R → R
  norm_xy v = sqrt (add (mul v.x v.x) (mul v.y v.y))

  -- Within 0.5 m of the target, or with no speed, the velocity is zero.
  velocity_toward_xy : Vec3 R → Vec3 R → R → Vec3 R
  unfolding norm_xy
  velocity_toward_xy from to speed =
      let delta : Vec3 R = record { x = sub to.x from.x; y = sub to.y from.y; z = nought } in
      let distance = norm_xy delta in
      if le distance (decimal (pos 5) 1) || le speed nought then zero_vec else record {
        x = mul (div delta.x distance) speed;
        y = mul (div delta.y distance) speed;
        z = nought;
      }

  command_from_velocity : ℤ → Vec3 R → R → VelocityCommand R
  unfolding norm_xy
  command_from_velocity timestamp v yaw_offset =
      if lt (decimal (pos 5) 2) (norm_xy v)
      then record plain { yaw_valid = true; yaw_rad = add (atan2 v.y v.x) yaw_offset }
      else plain
    where
      plain : VelocityCommand R
      plain = record {
        kind = FlightCommandKind.velocity;
        timestamp = timestamp;
        velocity_local_mps = v;
        yaw_rate_radps = nought;
        yaw_rad = nought;
        yaw_rate_valid = true;
        yaw_valid = false;
        yaw_source = YawSource.disabled;
      }

  -- The loop of `advance_segment_if_needed`, over the segments from the index on.
  unfoldable pub advance_segments : List (TrajectorySegment R) → ℕ → R → ℕ × R
  advance_segments [] index elapsed = (index, elapsed)
  advance_segments (s ∷ rest) index elapsed =
      let next = advance_segments rest (index + 1) (sub elapsed s.duration_s) in
      if le s.duration_s elapsed then next else (index, elapsed)

  unfoldable pub advance_segment_if_needed :
      TrajectoryMissionConfig R → TrajectoryMissionController R → TrajectoryMissionController R
  advance_segment_if_needed cfg c =
      let (index, elapsed) =
        advance_segments (drop c.segment_index cfg.trajectory) c.segment_index
          c.segment_elapsed_s in
      record c { segment_index = index; segment_elapsed_s = elapsed }

  abbrev pub trajectory_complete : TrajectoryMissionConfig R → TrajectoryMissionController R → Bool
  trajectory_complete cfg c = leb (length cfg.trajectory) c.segment_index

  trajectory_command :
      TrajectoryMissionConfig R → TrajectoryMissionController R → ℤ → Option (VelocityCommand R)
  unfolding command_from_velocity
  trajectory_command cfg c timestamp = elim (get_elem? cfg.trajectory c.segment_index) [
    | none ↦ none
    | some segment ↦ elim (velocity_at cfg.trajectory c.segment_index c.segment_elapsed_s) [
      | none ↦ none
      | some v ↦
          some (command_from_velocity timestamp v (add cfg.yaw_offset_rad segment.yaw_offset_rad))
    ]
  ]

  abbrev output_of : Reply R → MissionTickOutput R
  output_of r = record {
    state = r.flight.state;
    command = r.command;
    camera_pointing = none;
    status = r.status;
    events = [];
  }

  abbrev finishes :
      Reply R → TrajectoryMissionController R → Ticked R (TrajectoryMissionController R)
  finishes r c = record { output = some (output_of r); controller = record c { flight = r.flight } }

  abbrev velocity_reply : Flight R → VelocityCommand R → Status → Reply R
  velocity_reply f v s = record { flight = f; command = some v; status = s }

  abbrev silent_reply : Flight R → Status → Reply R
  silent_reply f s = record { flight = f; command = none; status = s }

  -- `case MissionLifecycleState::Takeoff`.
  unfoldable pub tick_takeoff :
      TrajectoryMissionConfig R
      → TrajectoryMissionController R
      → MissionTickInput R
      → Ticked R (TrajectoryMissionController R)
  unfolding command_from_velocity
  tick_takeoff cfg c i =
      if i.finish_requested
      then (if lt land_height_m height
          then finishes
              (silent_reply (enter MissionLifecycleState.land i.now f) Status.finish_requested_land)
              c
          else finishes
              (silent_reply (enter MissionLifecycleState.complete i.now f)
                Status.finish_requested_complete)
              c)
      else if le cfg.safe_height_m height
      then finishes
          (silent_reply (enter MissionLifecycleState.execute_mission i.now f)
            Status.takeoff_complete)
          (record c { segment_index = 0; segment_elapsed_s = nought })
      else if not f.takeoff_command_sent
      then finishes
          (velocity_reply
            (record f { takeoff_command_sent = true; takeoff_last_command_time = i.now })
            (command_with_kind i.now FlightCommandKind.takeoff) Status.takeoff_request)
          c
      else if le takeoff_velocity_assist_height_m height
      then finishes
          (velocity_reply f (command_from_velocity i.now climb nought) Status.takeoff_climb) c
      else if elapsed_at_least f.takeoff_last_command_time i.now cfg.flight.takeoff_retry_interval_s
      then finishes (silent_reply f Status.waiting_for_takeoff_climb) c
      else finishes (silent_reply f Status.waiting_for_takeoff_command_settle) c
    where
      open c use {flight as f}

      height : R
      height = height_of i.snapshot.ego

      climb : Vec3 R
      climb = record { x = nought; y = nought; z = neg (abs cfg.takeoff_velocity_mps) }

  -- `case MissionLifecycleState::ExecuteMission`; `dt` is the time since the last tick.
  unfoldable pub tick_execute_mission :
      TrajectoryMissionConfig R
      → R
      → TrajectoryMissionController R
      → MissionTickInput R
      → Ticked R (TrajectoryMissionController R)
  unfolding trajectory_command
  tick_execute_mission cfg dt c i =
      if i.finish_requested
      then finishes
          (silent_reply (enter MissionLifecycleState.go_home i.now c.flight)
            Status.finish_requested_go_home)
          c
      else if trajectory_complete cfg moved
      then finishes
          (silent_reply (enter MissionLifecycleState.go_home i.now c.flight)
            Status.trajectory_complete)
          moved
      else elim (trajectory_command cfg moved i.now) [
        | none ↦ record { output = none; controller = moved }
        | some v ↦ finishes (velocity_reply c.flight v Status.trajectory_execute) moved
      ]
    where
      moved : TrajectoryMissionController R
      moved =
          advance_segment_if_needed cfg
            (record c { segment_elapsed_s = add c.segment_elapsed_s dt })

  -- `case MissionLifecycleState::GoHome`.
  unfoldable pub tick_go_home :
      TrajectoryMissionConfig R
      → TrajectoryMissionController R
      → MissionTickInput R
      → Ticked R (TrajectoryMissionController R)
  unfolding velocity_toward_xy command_from_velocity norm_xy
  tick_go_home cfg c i =
      if le (norm_xy v) nought
      then finishes
          (silent_reply (enter MissionLifecycleState.land i.now f)
            (if f.aborting then Status.abort_recovery_home_reached else Status.home_reached))
          c
      else finishes
          (velocity_reply f (command_from_velocity i.now v cfg.yaw_offset_rad)
            (if f.aborting then Status.abort_recovery_go_home else Status.go_home))
          c
    where
      open c use {flight as f}

      v : Vec3 R
      v =
          if f.home_initialized
          then velocity_toward_xy i.snapshot.ego.local_T_body.position f.home_pose.position
              cfg.go_home_velocity_mps
          else zero_vec

  -- The `switch` of `tick`.
  unfoldable pub tick_state :
      TrajectoryMissionConfig R
      → R
      → TrajectoryMissionController R
      → MissionTickInput R
      → MissionLifecycleState
      → Ticked R (TrajectoryMissionController R)
  tick_state cfg dt c i MissionLifecycleState.prepare =
      finishes (tick_prepare cfg.flight i c.flight) c
  tick_state cfg dt c i MissionLifecycleState.takeoff = tick_takeoff cfg c i
  tick_state cfg dt c i MissionLifecycleState.execute_mission = tick_execute_mission cfg dt c i
  tick_state cfg dt c i MissionLifecycleState.go_home = tick_go_home cfg c i
  tick_state cfg dt c i MissionLifecycleState.land = finishes (tick_land cfg.flight i c.flight) c
  tick_state cfg dt c i MissionLifecycleState.complete =
      finishes (tick_complete cfg.flight i c.flight) c
  tick_state cfg dt c i MissionLifecycleState.abort = finishes (tick_abort c.flight) c
  tick_state cfg dt c i MissionLifecycleState.idle = finishes (tick_idle i c.flight) c

  unfoldable pub tick :
      TrajectoryMissionConfig R
      → MissionTickInput R
      → TrajectoryMissionController R
      → Ticked R (TrajectoryMissionController R)
  tick cfg i c =
      let started = start_mission i c.flight in
      let dt = max_double nought (seconds_between started.last_tick_time i.now) in
      let f = stamp i.now started in tick_state cfg dt (record c { flight = f }) i f.state
