-- ===== src/Examples.antt =====
-- The data of the concrete runs: a flight over 20 m of ground, in fixed-point numbers.
pub mod Missions
pub mod Targets
pub mod Planning
pub mod Map
pub mod Spec
pub mod Assimilator
pub mod Behaviors
pub mod Runtime
use dedalus.Base.{ℤ, pos, ℕ, ◌*◌, Bool, true, false, none, List, [], ◌∷◌, String, refl}
use dedalus.Base.Fixed.{fixed, unit}
use dedalus.Mission.{
  AgentLifecycle, AgentState, ClassLabel, EgoState, FlightControlArmState, MissionTickInput, Pose3,
  Vec3, WorldSnapshot,
}
use dedalus.Flight.{Flight, FlightConfig, initial_flight}
use dedalus.Flight.Phases.{IsFresh}
use dedalus.Target.{TargetSelectionPolicy, TargetSelectorSpec}
use dedalus.Trajectory.{default_hold}
use dedalus.Trajectory.Controller.{TrajectoryMissionConfig}
use dedalus.Behavior.{
  BehaviorMissionSpec, BehaviorSpec, BehaviorType, CircleDirection, GeometryPolicy,
  ObjectBehaviorAltitudePolicy, ObjectBehaviorMissionConfig, ObjectBehaviorVerticalStareMode,
  ObjectBehaviorYawMode,
}

abbrev pub metres : ℕ → ℤ
metres n = pos (n * unit)

abbrev pub origin : Vec3 ℤ
origin = record { x = pos 0; y = pos 0; z = pos 0 }

abbrev pub at : Vec3 ℤ → Pose3 ℤ
at p = record { position = p; rotation_rpy = origin }

abbrev pub flight_config : FlightConfig ℤ
flight_config = record {
  arm_retry_interval_s = metres 2;
  arm_timeout_s = metres 30;
  arm_dispatch_fallback_s = pos 0;
  takeoff_retry_interval_s = metres 3;
  land_retry_interval_s = metres 3;
  land_timeout_s = metres 60;
  disarm_retry_interval_s = metres 2;
  disarm_timeout_s = metres 30;
}

abbrev pub trajectory_config : TrajectoryMissionConfig ℤ
trajectory_config = record {
  flight = flight_config;
  safe_height_m = metres 8;
  takeoff_velocity_mps = metres 1;
  go_home_velocity_mps = metres 2;
  yaw_offset_rad = pos 0;
  trajectory = default_hold;
}

abbrev pub follow : BehaviorSpec ℤ
follow = record {
  behavior_type = BehaviorType.follow;
  max_speed_mps = metres 4;
  max_vertical_speed_mps = metres 1;
  yaw_mode = "";
  camera_pointing_mode = "";
  yaw_offset_rad = pos 0;
  direction = CircleDirection.clockwise;
  orbit_count = pos 0;
  duration_s = pos 0;
}

abbrev pub target_spec : TargetSelectorSpec ℤ
target_spec = record {
  class_label = ClassLabel.person;
  track_id = "";
  agent_id = "";
  confidence_min = pos 500_000;
  policy = TargetSelectionPolicy.highest_confidence;
  reacquire_timeout_s = metres 3;
}

abbrev pub behavior_config : ObjectBehaviorMissionConfig ℤ
behavior_config = record {
  behavior_spec = record {
    target = target_spec;
    behavior = follow;
    steps = [];
    completion_after_s = pos 0;
  };
  flight = flight_config;
  takeoff_height_m = metres 8;
  behavior_min_height_m = metres 3;
  takeoff_velocity_mps = metres 1;
  go_home_velocity_mps = metres 2;
  yaw_offset_rad = pos 0;
  yaw_min_speed_mps = pos 250_000;
  yaw_hold_last_when_unstable = true;
  yaw_mode = ObjectBehaviorYawMode.trajectory;
  vertical_stare_mode = ObjectBehaviorVerticalStareMode.gimbal;
  camera_pointing_cameras = [];
  camera_pitch_min_rad = pos 0;
  camera_pitch_max_rad = metres 1;
  camera_pitch_sign = metres 1;
  camera_pitch_offset_rad = pos 0;
  camera_pointing_prepare_mode = "neutral";
  camera_pointing_takeoff_mode = "neutral";
  camera_pointing_go_home_mode = "home";
  camera_pointing_land_mode = "landing_area";
  camera_pointing_complete_mode = "neutral";
  debug_every_n_ticks = 0;
  altitude_policy = ObjectBehaviorAltitudePolicy.target_relative;
  zero_target_velocity = false;
}

-- A policy that flies east.
abbrev pub east : GeometryPolicy ℤ
east = record {
  FollowGeometry = Vec3 ℤ;
  default_geometry = origin;
  circling = λ g. false;
  step_complete = λ g. false;
  orbit_angle_rad = λ g. pos 0;
  desired_velocity = λ g. g;
  with_orbits = λ g done target. g;
  circle_geometry = λ ego s b orbiting. origin;
  behavior_velocity = λ ego s b. (record { x = metres 1; y = pos 0; z = pos 0 }, origin);
  apply_altitude_profile = λ v ego b elapsed g. (v, g);
  behavior_detail_for_tick = λ b g. "east";
  object_behavior_status = λ b g. "follow";
}

abbrev pub person : String → ℕ → AgentState ℤ
person name confidence = record {
  agent_id = name;
  identity_id = name;
  source_track_id = name;
  last_seen = pos 0;
  position_local = record { x = pos (confidence * 2); y = pos 0; z = pos 0 };
  velocity_local = origin;
  map_frame_id = "map";
  class_label = ClassLabel.person;
  lifecycle = AgentLifecycle.active;
  confidence = pos confidence;
}

-- A snapshot of a drone at the height `h`, armed or not, with the agents.
abbrev pub snapshot : List (AgentState ℤ) → Bool → ℤ → WorldSnapshot ℤ
snapshot agents armed h = record {
  timestamp = pos 0;
  ego = record {
    timestamp = pos 0;
    local_T_body = at origin;
    height_m = h;
    height_valid = true;
    armed = armed;
    armed_valid = true;
  };
  flight_control = record {
    arm_state = FlightControlArmState.unknown;
    updated_at = pos 0;
    last_arm_request_at = pos 0;
    last_disarm_request_at = pos 0;
    status = "";
  };
  agents = agents;
  has_trajectory_safety = false;
  trajectory_blocked = false;
}

-- The input at `t` seconds.
abbrev pub input : ℕ → Bool → ℤ → Bool → MissionTickInput ℤ
input t armed h finish = record {
  now = pos (t * 1_000_000_000);
  snapshot = snapshot (person "ann" 800_000 ∷ []) armed h;
  last_command_result = none;
  finish_requested = finish;
}

-- Arming, takeoff, 8 m of height, the end of the mission, home, landing, on the ground.
abbrev pub sortie : List (MissionTickInput ℤ)
sortie =
    input 1 false (pos 0) false
    ∷ input 2 true (pos 0) false
    ∷ input 3 true (pos 0) false
    ∷ input 9 true (metres 8) false
    ∷ input 10 true (metres 8) true
    ∷ input 11 true (metres 8) false
    ∷ input 12 true (metres 8) false
    ∷ input 20 true (pos 0) false
    ∷ []

pub initial-IsFresh : IsFresh {R = ℤ} initial_flight
initial-IsFresh = record { unstarted = λ h. refl }
