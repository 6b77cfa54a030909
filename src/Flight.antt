-- ===== src/Flight.antt =====
-- The lifecycle that both mission controllers carry out in the same words
-- (src/behavior/object_behavior_mission_controller_tick.cpp and
-- src/behavior/trajectory_mission_controller_tick.cpp): arming, landing, disarming, abort recovery.
pub mod Contract
pub mod Phases
pub mod Runs
use dedalus.Base.{
  ℤ, pos, ◌-ℤ◌, Bool, true, false, not, ◌&&◌, ◌||◌, Option, none, some, Double, nought,
  if◌then◌else◌,
}
use dedalus.Mission.{
  Vec3, Pose3, FlightCommandKind, MissionLifecycleState, YawSource, VelocityCommand,
  FlightCommandResult, EgoState, MissionTickInput, Status,
}

-- The lifecycle fields of `ObjectBehaviorMissionConfig` and `TrajectoryMissionConfig`.
pub record FlightConfig (R : Type 0) : Type 0 where
  pub arm_retry_interval_s : R
  pub arm_timeout_s : R
  pub arm_dispatch_fallback_s : R
  pub takeoff_retry_interval_s : R
  pub land_retry_interval_s : R
  pub land_timeout_s : R
  pub disarm_retry_interval_s : R
  pub disarm_timeout_s : R

-- The lifecycle members of the two controller classes.
pub record Flight (R : Type 0) : Type 0 where
  pub state : MissionLifecycleState
  pub mission_start : ℤ
  pub state_start : ℤ
  pub last_tick_time : ℤ
  pub arm_last_command_time : ℤ
  pub takeoff_last_command_time : ℤ
  pub land_last_command_time : ℤ
  pub disarm_last_command_time : ℤ
  pub home_pose : Pose3 R
  pub mission_started : Bool
  pub home_initialized : Bool
  pub arm_command_sent : Bool
  pub takeoff_command_sent : Bool
  pub land_command_sent : Bool
  pub disarm_command_sent : Bool
  pub aborting : Bool

-- What one phase does: the members after it, the flight command and the status.
pub record Reply (R : Type 0) : Type 0 where
  pub flight : Flight R
  pub command : Option (VelocityCommand R)
  pub status : Status

abbrev pub same_kind : FlightCommandKind → FlightCommandKind → Bool
same_kind FlightCommandKind.velocity FlightCommandKind.velocity = true
same_kind FlightCommandKind.arm FlightCommandKind.arm = true
same_kind FlightCommandKind.takeoff FlightCommandKind.takeoff = true
same_kind FlightCommandKind.land FlightCommandKind.land = true
same_kind FlightCommandKind.disarm FlightCommandKind.disarm = true
same_kind _ _ = false

abbrev pub last_result_matches_success : Option FlightCommandResult → FlightCommandKind → Bool
last_result_matches_success none k = false
last_result_matches_success (some r) k = same_kind r.kind k && r.success

module _ {R : Type 0} ⦃d : Double R⦄ where
  open d use {lt, le, add, sub, mul, div, of_int, decimal}

  abbrev pub zero_vec : Vec3 R
  zero_vec = record { x = nought; y = nought; z = nought }

  unfoldable pub seconds_between : ℤ → ℤ → R
  seconds_between start end = div (of_int (end -ℤ start)) (of_int (pos 1_000_000_000))

  unfoldable pub elapsed_at_least : ℤ → ℤ → R → Bool
  elapsed_at_least start end seconds = le seconds (seconds_between start end)

  -- `kLandHeightM` and `kTakeoffVelocityAssistHeightM`.
  abbrev pub land_height_m : R
  land_height_m = decimal (pos 25) 2

  abbrev pub takeoff_velocity_assist_height_m : R
  takeoff_velocity_assist_height_m = decimal (pos 5) 1

  abbrev pub height_of : EgoState R → R
  height_of ego = if ego.height_valid then ego.height_m else d.neg ego.local_T_body.position.z

  abbrev pub command_with_kind : ℤ → FlightCommandKind → VelocityCommand R
  command_with_kind timestamp kind = record {
    kind = kind;
    timestamp = timestamp;
    velocity_local_mps = zero_vec;
    yaw_rate_radps = nought;
    yaw_rad = nought;
    yaw_rate_valid = false;
    yaw_valid = false;
    yaw_source = YawSource.disabled;
  }

  -- The members of a controller when it is constructed.
  abbrev pub initial_flight : Flight R
  initial_flight = record {
    state = MissionLifecycleState.idle;
    mission_start = pos 0;
    state_start = pos 0;
    last_tick_time = pos 0;
    arm_last_command_time = pos 0;
    takeoff_last_command_time = pos 0;
    land_last_command_time = pos 0;
    disarm_last_command_time = pos 0;
    home_pose = record { position = zero_vec; rotation_rpy = zero_vec };
    mission_started = false;
    home_initialized = false;
    arm_command_sent = false;
    takeoff_command_sent = false;
    land_command_sent = false;
    disarm_command_sent = false;
    aborting = false;
  }

  -- The head of `tick`: the first call records the time and the home pose.
  unfoldable pub start_mission : MissionTickInput R → Flight R → Flight R
  start_mission i f = if f.mission_started then f else record f {
    mission_started = true;
    mission_start = i.now;
    state_start = i.now;
    last_tick_time = i.now;
    home_pose = i.snapshot.ego.local_T_body;
    home_initialized = true;
    state = MissionLifecycleState.prepare;
  }

  -- `last_tick_time_ = input.now`.
  abbrev pub stamp : ℤ → Flight R → Flight R
  stamp now f = record f { last_tick_time = now }

  abbrev pub enter : MissionLifecycleState → ℤ → Flight R → Flight R
  enter s now f = record f { state = s; state_start = now }

  unfoldable pub begin_abort_recovery : ℤ → R → Flight R → Flight R
  begin_abort_recovery now height f = record f {
    aborting = true;
    state_start = now;
    state =
        if lt land_height_m height
        then if f.home_initialized
          then MissionLifecycleState.go_home
          else MissionLifecycleState.land
        else MissionLifecycleState.complete;
  }

  abbrev reply : Flight R → Status → Reply R
  reply f s = record { flight = f; command = none; status = s }

  abbrev sends : FlightCommandKind → ℤ → Flight R → Status → Reply R
  sends k now f s = record { flight = f; command = some (command_with_kind now k); status = s }

  -- `case MissionLifecycleState::Prepare`.
  unfoldable pub tick_prepare : FlightConfig R → MissionTickInput R → Flight R → Reply R
  tick_prepare cfg i f =
      if i.finish_requested && ego.armed_valid && not ego.armed
      then reply (enter MissionLifecycleState.complete i.now f) Status.finish_requested_before_arm
      else if ego.armed_valid && ego.armed
      then reply (enter MissionLifecycleState.takeoff i.now f) Status.armed_confirmed_by_ego
      else if lt nought cfg.arm_dispatch_fallback_s
          && last_result_matches_success i.last_command_result FlightCommandKind.arm
          && elapsed_at_least f.arm_last_command_time i.now cfg.arm_dispatch_fallback_s
      then reply (enter MissionLifecycleState.takeoff i.now f)
          Status.arm_dispatch_ok_waiting_for_takeoff_height
      else if elapsed_at_least f.state_start i.now cfg.arm_timeout_s
      then (if ego.armed_valid && not ego.armed
          then reply (record f { state = MissionLifecycleState.abort }) Status.abort
          else reply (begin_abort_recovery i.now (height_of ego) f)
              Status.abort_recovery_start_arm_timeout)
      else if not f.arm_command_sent
          || elapsed_at_least f.arm_last_command_time i.now cfg.arm_retry_interval_s
      then sends FlightCommandKind.arm i.now
          (record f { arm_command_sent = true; arm_last_command_time = i.now }) Status.arming
      else reply f (
          if ego.armed_valid
          then Status.waiting_for_armed_state
          else Status.waiting_for_armed_telemetry)
    where
      open i.snapshot use {ego}

  -- `case MissionLifecycleState::Land`.
  unfoldable pub tick_land : FlightConfig R → MissionTickInput R → Flight R → Reply R
  tick_land cfg i f =
      if le (height_of i.snapshot.ego) land_height_m
      then reply (enter MissionLifecycleState.complete i.now f)
          (if f.aborting then Status.abort_recovery_landed else Status.landed)
      else if not f.land_command_sent
      then sends FlightCommandKind.land i.now
          (record f { land_command_sent = true; land_last_command_time = i.now })
          (if f.aborting
            then Status.abort_recovery_landing_command_sent
            else Status.landing_command_sent)
      else if elapsed_at_least f.land_last_command_time i.now cfg.land_timeout_s
      then reply (record f { state = MissionLifecycleState.abort }) Status.abort
      else reply f (
          if f.aborting
          then Status.abort_recovery_waiting_for_landed_telemetry
          else Status.waiting_for_landed_telemetry)

  -- `case MissionLifecycleState::Complete`.
  unfoldable pub tick_complete : FlightConfig R → MissionTickInput R → Flight R → Reply R
  tick_complete cfg i f =
      if ego.armed_valid && not ego.armed
      then (if f.aborting
          then reply (record f { state = MissionLifecycleState.abort }) Status.abort
          else reply f Status.complete)
      else if elapsed_at_least f.state_start i.now cfg.disarm_timeout_s
      then reply (record f { state = MissionLifecycleState.abort }) Status.abort
      else if not f.disarm_command_sent
          || elapsed_at_least f.disarm_last_command_time i.now cfg.disarm_retry_interval_s
      then sends FlightCommandKind.disarm i.now
          (record f { disarm_command_sent = true; disarm_last_command_time = i.now })
          (if f.aborting then Status.abort_recovery_disarming else Status.disarming)
      else reply f (
          if f.aborting
          then (if ego.armed_valid
              then Status.abort_recovery_waiting_for_disarmed_state
              else Status.abort_recovery_waiting_for_disarmed_telemetry)
          else (if ego.armed_valid
              then Status.waiting_for_disarmed_state
              else Status.waiting_for_disarmed_telemetry))
    where
      open i.snapshot use {ego}

  -- `case MissionLifecycleState::Abort`, and `Idle` with `default`.
  unfoldable pub tick_abort : Flight R → Reply R
  tick_abort f = reply f Status.abort

  unfoldable pub tick_idle : MissionTickInput R → Flight R → Reply R
  tick_idle i f = reply (enter MissionLifecycleState.prepare i.now f) Status.idle
