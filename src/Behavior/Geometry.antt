-- ===== src/Behavior/Geometry.antt =====
-- The velocity limits of src/behavior/follow_geometry_policy.cpp.
pub mod Floor
use dedalus.Base.{pos, Bool, true, false, ◌&&◌, ◌||◌, Double, nought, min_double, if◌then◌else◌}
use dedalus.Mission.{Vec3}
use dedalus.Behavior.{BehaviorSpec, ObjectBehaviorMissionConfig, ObjectBehaviorAltitudePolicy}

abbrev pub floors : ObjectBehaviorAltitudePolicy → Bool
floors ObjectBehaviorAltitudePolicy.safe_height_floor = true
floors ObjectBehaviorAltitudePolicy.target_relative = false

module _ {R : Type 0} ⦃d : Double R⦄ where
  open d use {lt, le, add, sub, mul, div, neg, decimal, sqrt}

  -- `std::clamp(v, lo, hi)`; nothing is known of its value where `hi < lo`.
  abbrev pub clamp : R → R → R → R
  clamp v lo hi =
      if lt hi lo
      then d.clamp_undefined v lo hi
      else if lt v lo
      then lo
      else if lt hi v
      then hi
      else v

  pub norm_xy : Vec3 R → R
  norm_xy v = sqrt (add (mul v.x v.x) (mul v.y v.y))

  pub clamp_abs : R → R → R
  clamp_abs value limit = if le limit nought then nought else clamp value (neg limit) limit

  clamp_xy_norm : Vec3 R → R → Vec3 R
  unfolding norm_xy
  clamp_xy_norm v max_horizontal =
      let horizontal = norm_xy v in
      if lt max_horizontal horizontal && lt nought max_horizontal
      then (let scale = div max_horizontal horizontal in
          record v { x = mul v.x scale; y = mul v.y scale })
      else v

  -- In the local frame a negative `z` climbs.
  pub enforce_min_height_floor : Vec3 R → R → R → R → Vec3 R
  enforce_min_height_floor v height min_height max_vertical_speed =
      if le min_height nought || le max_vertical_speed nought
      then v
      else if lt height min_height
      then (let climb =
            clamp (mul (sub min_height height) (decimal (pos 5) 1)) (decimal (pos 35) 2)
              max_vertical_speed in
          record v { z = min_double v.z (neg climb) })
      else if le height min_height && lt nought v.z
      then record v { z = nought }
      else v

  pub clamp_velocity : Vec3 R → R → R → Vec3 R
  unfolding clamp_xy_norm
  clamp_velocity desired max_horizontal max_vertical =
      let v = clamp_xy_norm desired max_horizontal in record v { z = clamp_abs v.z max_vertical }

  pub apply_altitude_policy : Vec3 R → ObjectBehaviorMissionConfig R → BehaviorSpec R → R → Vec3 R
  apply_altitude_policy v cfg behavior height =
      if floors cfg.altitude_policy
      then enforce_min_height_floor v height cfg.behavior_min_height_m
          behavior.max_vertical_speed_mps
      else v

  abbrev pub enforce_takeoff_height_floor : Vec3 R → R → R → R → Vec3 R
  enforce_takeoff_height_floor = enforce_min_height_floor
