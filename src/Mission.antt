-- ===== src/Mission.antt =====
-- The data that a mission controller and the mission runtime exchange:
-- include/dedalus/behavior/mission_controller.hpp, with the parts of include/dedalus/core/types.hpp
-- and include/dedalus/world_model/world_snapshot.hpp that they read. `R` is the type of `double`.
-- A string that the code compares or that is one of a few literals is an enumeration of those
-- literals; times are 64-bit nanosecond counts.
use dedalus.Base.{ℤ, String, Bool, Option, List}

pub record Vec3 (R : Type 0) : Type 0 where
  pub x : R
  pub y : R
  pub z : R

pub record Pose3 (R : Type 0) : Type 0 where
  pub position : Vec3 R
  pub rotation_rpy : Vec3 R

pub data FlightCommandKind : Type 0 where
  velocity arm takeoff land disarm : FlightCommandKind

pub data MissionLifecycleState : Type 0 where
  idle prepare takeoff execute_mission go_home land complete abort : MissionLifecycleState

pub data FlightControlArmState : Type 0 where
  unknown disarmed arm_requested armed_confirmed : FlightControlArmState
  disarm_requested disarmed_confirmed arm_failed disarm_failed : FlightControlArmState

pub data ClassLabel : Type 0 where
  unknown person drone car boat animal house building tree : ClassLabel
  road river terrain pole wall fence cable obstacle : ClassLabel

pub data AgentLifecycle : Type 0 where
  new active occluded contained stale retired : AgentLifecycle

-- The literals that `VelocityCommand::yaw_source` is given.
pub data YawSource : Type 0 where
  disabled trajectory hold_last target : YawSource

pub record VelocityCommand (R : Type 0) : Type 0 where
  pub kind : FlightCommandKind
  pub timestamp : ℤ
  pub velocity_local_mps : Vec3 R
  pub yaw_rate_radps : R
  pub yaw_rad : R
  pub yaw_rate_valid : Bool
  pub yaw_valid : Bool
  pub yaw_source : YawSource

pub record FlightCommandResult : Type 0 where
  pub kind : FlightCommandKind
  pub success : Bool
  pub status : String

pub record FlightControlState : Type 0 where
  pub arm_state : FlightControlArmState
  pub updated_at : ℤ
  pub last_arm_request_at : ℤ
  pub last_disarm_request_at : ℤ
  pub status : String

pub record EgoState (R : Type 0) : Type 0 where
  pub timestamp : ℤ
  pub local_T_body : Pose3 R
  pub height_m : R
  pub height_valid : Bool
  pub armed : Bool
  pub armed_valid : Bool

pub record AgentState (R : Type 0) : Type 0 where
  pub agent_id : String
  pub identity_id : String
  pub source_track_id : String
  pub last_seen : ℤ
  pub position_local : Vec3 R
  pub velocity_local : Vec3 R
  pub map_frame_id : String
  pub class_label : ClassLabel
  pub lifecycle : AgentLifecycle
  pub confidence : R

pub record WorldSnapshot (R : Type 0) : Type 0 where
  pub timestamp : ℤ
  pub ego : EgoState R
  pub flight_control : FlightControlState
  pub agents : List (AgentState R)
  pub has_trajectory_safety : Bool
  pub trajectory_blocked : Bool

-- The literals that `MissionTickOutput::status` is given by the two controllers.
pub data Status : Type 0 where
  none_yet finish_requested_before_arm armed_confirmed_by_ego : Status
  arm_dispatch_ok_waiting_for_takeoff_height abort : Status
  abort_recovery_start_arm_timeout arming waiting_for_armed_state : Status
  waiting_for_armed_telemetry finish_requested_land finish_requested_complete : Status
  takeoff_complete takeoff_request takeoff_climb waiting_for_takeoff_climb : Status
  waiting_for_takeoff_command_settle finish_requested_go_home trajectory_complete : Status
  trajectory_execute abort_recovery_home_reached home_reached : Status
  abort_recovery_go_home go_home abort_recovery_landed landed : Status
  abort_recovery_landing_command_sent landing_command_sent : Status
  abort_recovery_waiting_for_landed_telemetry waiting_for_landed_telemetry : Status
  complete abort_recovery_disarming disarming : Status
  abort_recovery_waiting_for_disarmed_state abort_recovery_waiting_for_disarmed_telemetry : Status
  waiting_for_disarmed_state waiting_for_disarmed_telemetry idle : Status
  object_behavior_sequence_step_complete object_behavior_finish_requested : Status
  object_behavior_complete object_behavior_finish_requested_no_target : Status
  -- `object_behavior_waiting_for_target_...` and `object_behavior_status(...)`, with their text
  object_behavior_waiting_for_target object_behavior_status : String → Status

pub data ControllerEventKind : Type 0 where
  target_selected target_reacquired target_lost behavior_start : ControllerEventKind
  behavior_complete behavior_failed fallback_start fallback_complete : ControllerEventKind
  sequence_step_start sequence_step_complete behavior_tick_sample : ControllerEventKind
  behavior_debug camera_pointing_intent : ControllerEventKind

pub record CameraPointingCommand (R : Type 0) : Type 0 where
  pub timestamp : ℤ
  pub cameras : List String
  pub mode : String
  pub source_track_id : String
  pub agent_id : String
  pub identity_id : String
  pub pitch_rad : R
  pub pitch_unclamped_rad : R
  pub pitch_min_rad : R
  pub pitch_max_rad : R
  pub target_elevation_rad : R
  pub target_bearing_rad : R
  pub yaw_rad : R
  pub range_xy_m : R
  pub delta_z_m : R
  pub pitch_sign : R
  pub pitch_offset_rad : R
  pub pitch_valid : Bool
  pub yaw_valid : Bool
  pub pitch_clamped : Bool

pub record MissionTickInput (R : Type 0) : Type 0 where
  pub now : ℤ
  pub snapshot : WorldSnapshot R
  pub last_command_result : Option FlightCommandResult
  pub finish_requested : Bool

-- An event is kept as its kind; the text of its `json_fields` is not modelled.
pub record MissionTickOutput (R : Type 0) : Type 0 where
  pub state : MissionLifecycleState
  pub command : Option (VelocityCommand R)
  pub camera_pointing : Option (CameraPointingCommand R)
  pub status : Status
  pub events : List ControllerEventKind

-- A tick that throws leaves the members as they are then, and has no output.
pub record Ticked (R : Type 0) (S : Type 0) : Type 0 where
  pub output : Option (MissionTickOutput R)
  pub controller : S
