-- ===== src/Behavior.antt =====
-- The object behaviour mission: include/dedalus/behavior/behavior_spec.hpp and
-- include/dedalus/behavior/object_behavior_mission_controller.hpp. The children hold the methods of
-- `ObjectBehaviorMissionController`, by source file.
pub mod Geometry
pub mod Camera
pub mod Yaw
pub mod Sequence
pub mod Execute
pub mod GoHome
pub mod Tick
pub mod Missions
use dedalus.Base.{ℤ, ℕ, Bool, Option, List, String}
use dedalus.Mission.{Vec3, EgoState}
use dedalus.Flight.{Flight, FlightConfig}
use dedalus.Target.{TargetSelectorSpec, TargetSelection}

pub data BehaviorType : Type 0 where
  hold search follow approach circle go_home land go_home_land sequence : BehaviorType

pub data CircleDirection : Type 0 where
  clockwise counter_clockwise : CircleDirection

pub data ObjectBehaviorAltitudePolicy : Type 0 where
  target_relative safe_height_floor : ObjectBehaviorAltitudePolicy

pub data ObjectBehaviorYawMode : Type 0 where
  trajectory target hold none : ObjectBehaviorYawMode

pub data ObjectBehaviorVerticalStareMode : Type 0 where
  none debug_only gimbal : ObjectBehaviorVerticalStareMode

-- The fields of `BehaviorSpec` that the controller reads. The list `steps` stands beside the
-- behaviour in `BehaviorMissionSpec`, since the steps of a step are never read.
pub record BehaviorSpec (R : Type 0) : Type 0 where
  pub behavior_type : BehaviorType
  pub max_speed_mps : R
  pub max_vertical_speed_mps : R
  pub yaw_mode : String
  pub camera_pointing_mode : String
  pub yaw_offset_rad : R
  pub direction : CircleDirection
  pub orbit_count : R
  pub duration_s : R

pub record BehaviorMissionSpec (R : Type 0) : Type 0 where
  pub target : TargetSelectorSpec R
  pub behavior : BehaviorSpec R
  pub steps : List (BehaviorSpec R)
  pub completion_after_s : R

-- `debug_every_n_ticks` is 0 where the source has a negative number, which it treats alike.
pub record ObjectBehaviorMissionConfig (R : Type 0) : Type 0 where
  pub behavior_spec : BehaviorMissionSpec R
  pub flight : FlightConfig R
  pub takeoff_height_m : R
  pub behavior_min_height_m : R
  pub takeoff_velocity_mps : R
  pub go_home_velocity_mps : R
  pub yaw_offset_rad : R
  pub yaw_min_speed_mps : R
  pub yaw_hold_last_when_unstable : Bool
  pub yaw_mode : ObjectBehaviorYawMode
  pub vertical_stare_mode : ObjectBehaviorVerticalStareMode
  pub camera_pointing_cameras : List String
  pub camera_pitch_min_rad : R
  pub camera_pitch_max_rad : R
  pub camera_pitch_sign : R
  pub camera_pitch_offset_rad : R
  pub camera_pointing_prepare_mode : String
  pub camera_pointing_takeoff_mode : String
  pub camera_pointing_go_home_mode : String
  pub camera_pointing_land_mode : String
  pub camera_pointing_complete_mode : String
  pub debug_every_n_ticks : ℕ
  pub altitude_policy : ObjectBehaviorAltitudePolicy
  pub zero_target_velocity : Bool

-- The members of the class, but for `abort_reason_`, which nothing reads.
pub record ObjectBehaviorMissionController (R : Type 0) : Type 0 where
  pub flight : Flight R
  pub behavior_start : ℤ
  pub target_selected_emitted : Bool
  pub behavior_start_emitted : Bool
  pub behavior_complete_emitted : Bool
  pub behavior_tick_sample_emitted : Bool
  pub last_behavior_display_detail : String
  pub circle_in_orbit_mode : Bool
  pub circle_orbit_tracking : Bool
  pub circle_previous_angle_rad : R
  pub circle_completed_orbits : R
  pub previous_selection : Option (TargetSelection R)
  pub last_stable_yaw_valid : Bool
  pub last_stable_yaw_rad : R
  pub execute_tick_count : ℕ
  pub sequence_step_index : ℕ
  pub sequence_step_start : ℤ
  pub sequence_step_started : Bool
  pub last_ego_ts_go_home : ℤ
  pub go_home_estimated_frame_interval_s : R

-- The follow and orbit geometry (src/behavior/follow_geometry_policy_follow.cpp, its `_circle.cpp`,
-- and the display texts of src/behavior/behavior_osd.cpp), which the controller calls and whose
-- computations are not modelled: any functions of these types. The configuration that they are
-- passed is the controller's constant one.
pub record GeometryPolicy (R : Type 0) : Type 1 where
  pub FollowGeometry : Type 0
  pub default_geometry : FollowGeometry
  -- `circle_phase == "circling"`, `behavior_step_complete`, `orbit_angle_rad`, `desired_velocity`
  pub circling : FollowGeometry → Bool
  pub step_complete : FollowGeometry → Bool
  pub orbit_angle_rad : FollowGeometry → R
  pub desired_velocity : FollowGeometry → Vec3 R
  -- the assignments to `circle_completed_orbits` and `orbit_count_target`
  pub with_orbits : FollowGeometry → R → R → FollowGeometry
  pub circle_geometry : EgoState R → TargetSelection R → BehaviorSpec R → Bool → FollowGeometry
  pub behavior_velocity : EgoState R → TargetSelection R → BehaviorSpec R → Vec3 R × FollowGeometry
  pub apply_altitude_profile :
      Vec3 R → EgoState R → BehaviorSpec R → R → FollowGeometry → Vec3 R × FollowGeometry
  pub behavior_detail_for_tick : BehaviorSpec R → FollowGeometry → String
  pub object_behavior_status : BehaviorSpec R → FollowGeometry → String
