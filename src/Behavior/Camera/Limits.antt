-- ===== src/Behavior/Camera/Limits.antt =====
-- The pitch that the camera is sent to.
use dedalus.Base.{ℤ, String, some, false, ◌≡◌, Double, IsIeee, min_double, max_double, arith}
use dedalus.Mission.{CameraPointingCommand, EgoState, Vec3}
use dedalus.Behavior.{ObjectBehaviorMissionConfig}
use dedalus.Behavior.Camera.{camera_pointing_command_to_point, is_neutral, pointed_command}

module _ {R : Type 0} ⦃d : Double R⦄ (laws : IsIeee R) where
  clamped :
      (lo hi v : R)
      → d.lt hi lo ≡ false
      → (d.lt (max_double lo (min_double hi v)) lo ≡ false)
        × (d.lt hi (max_double lo (min_double hi v)) ≡ false)
  clamped lo hi v h = ground (
    arith,
    laws.lt_irrefl lo,
    laws.lt_irrefl hi,
    laws.lt_trans hi v hi,
    laws.lt_trans lo v lo,
    laws.lt_trans lo hi lo,
  )

  pointed_command-limits :
      (cfg : ObjectBehaviorMissionConfig R) (timestamp : ℤ) (ego : EgoState R) (to : Vec3 R)
      (mode : String)
      → d.lt cfg.camera_pitch_max_rad cfg.camera_pitch_min_rad ≡ false
      → (d.lt (pointed_command cfg timestamp ego to mode).pitch_rad cfg.camera_pitch_min_rad
          ≡ false)
        × (d.lt cfg.camera_pitch_max_rad (pointed_command cfg timestamp ego to mode).pitch_rad
            ≡ false)
  unfolding pointed_command
  pointed_command-limits cfg timestamp ego to mode h =
      clamped cfg.camera_pitch_min_rad cfg.camera_pitch_max_rad _ h

  -- A camera command towards a point, in a mode that is not neutral, has a pitch that is neither below
  -- the lower nor above the upper limit, when these are in order, and whatever the geometry computes,
  -- NaN included.
  pub camera_pointing_command_to_point-limits :
      (cfg : ObjectBehaviorMissionConfig R) (timestamp : ℤ) (ego : EgoState R) (to : Vec3 R)
      (mode : String) (command : CameraPointingCommand R)
      → d.lt cfg.camera_pitch_max_rad cfg.camera_pitch_min_rad ≡ false
      → is_neutral mode ≡ false
      → camera_pointing_command_to_point cfg timestamp ego to mode ≡ some command
      → (d.lt command.pitch_rad cfg.camera_pitch_min_rad ≡ false)
        × (d.lt cfg.camera_pitch_max_rad command.pitch_rad ≡ false)
  unfolding camera_pointing_command_to_point
  camera_pointing_command_to_point-limits cfg timestamp ego to mode command h n e =
      ground (arith, pointed_command-limits cfg timestamp ego to mode h)
