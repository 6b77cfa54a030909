-- ===== src/Spec/Records.antt =====
-- The records of include/dedalus/behavior/behavior_spec.hpp, with all the fields that are read.
use dedalus.Base.{Bool, true, false, Option, String}
use dedalus.Target.{TargetSelectorSpec}
use dedalus.Behavior.{BehaviorType, CircleDirection}
use dedalus.Spec.Names.{ReferenceFrame, CompletionAction, TargetLostFallback}

pub record BehaviorVector3 (R : Type 0) : Type 0 where
  pub x : R
  pub y : R
  pub z : R

pub record AltitudeProfileSpec (R : Type 0) : Type 0 where
  pub enabled : Bool
  pub start_height_m : R
  pub end_height_m : R
  pub duration_s : R
  pub easing : String

pub record CompletionSpec (R : Type 0) : Type 0 where
  pub after_s : R
  pub then_action : CompletionAction

pub record FallbackSpec (R : Type 0) : Type 0 where
  pub on_target_lost : TargetLostFallback
  pub hold_s : R
  pub search_s : R

-- `BehaviorSpec` but for its steps, in the groups that are read one after another. The offset is
-- absent where the source leaves the vector zero; nothing sets `yaw_offset_rad`.
pub record Motion (R : Type 0) : Type 0 where
  pub behavior_type : BehaviorType
  pub target_frame : ReferenceFrame
  pub relative_offset_m : Option (BehaviorVector3 R)
  pub max_speed_mps : R
  pub max_vertical_speed_mps : R
  pub position_tolerance_m : R
  pub lost_target_timeout_s : R
  pub yaw_mode : String
  pub camera_pointing_mode : String

pub record Shape (R : Type 0) : Type 0 where
  pub radius_m : R
  pub altitude_offset_m : R
  pub altitude_profile : AltitudeProfileSpec R

pub record Orbit (R : Type 0) : Type 0 where
  pub angular_speed_deg_s : R
  pub direction : CircleDirection
  pub orbit_count : R
  pub stop_distance_m : R
  pub duration_s : R

mutual
  pub data BehaviorTree (R : Type 0) : Type 0 where
    behavior : Motion R → Shape R → Orbit R → Steps R → BehaviorTree R

  pub data Steps (R : Type 0) : Type 0 where
    no_steps : Steps R
    step : BehaviorTree R → Steps R → Steps R

pub record MissionSpec (R : Type 0) : Type 0 where
  pub mission_name : String
  pub target : TargetSelectorSpec R
  pub behavior : BehaviorTree R
  pub completion : CompletionSpec R
  pub fallback : FallbackSpec R

abbrev pub no_step : {R : Type 0} → Steps R → Bool
no_step no_steps = true
no_step (step s steps) = false
