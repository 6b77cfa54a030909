-- ===== src/Behavior/Camera.antt =====
-- Where the camera points: src/behavior/object_behavior_mission_controller_camera.cpp.
pub mod Limits
use dedalus.Base.{
  ℤ, pos, Bool, true, false, not, ◌&&◌, ◌||◌, Option, none, some, List, [], ◌∷◌, ◌++◌, String,
  str_eq, Double, nought, min_double, max_double, if◌then◌else◌, ◌≡◌, refl,
}
use dedalus.Mission.{Vec3, EgoState, CameraPointingCommand, ControllerEventKind, MissionTickOutput}
use dedalus.Flight.{Flight}
use dedalus.Target.{TargetSelection, empty_string}
use dedalus.Behavior.{ObjectBehaviorMissionConfig, ObjectBehaviorVerticalStareMode, BehaviorSpec}

abbrev pub stares : ObjectBehaviorVerticalStareMode → Bool
stares ObjectBehaviorVerticalStareMode.none = false
stares _ = true

abbrev is_off : String → Bool
is_off mode = str_eq mode "none" || str_eq mode "disabled"

abbrev pub is_neutral : String → Bool
is_neutral mode = str_eq mode "neutral" || str_eq mode "reset"

abbrev is_homing : String → Bool
is_homing mode = str_eq mode "home" || str_eq mode "landing_area"

abbrev or_front_center : List String → List String
or_front_center [] = "front_center" ∷ []
or_front_center (c ∷ cs) = c ∷ cs

module _ {R : Type 0} ⦃d : Double R⦄ where
  open d use {lt, le, add, sub, mul, decimal, atan2, hypot, abs}

  neutral_command : ObjectBehaviorMissionConfig R → ℤ → String → CameraPointingCommand R
  neutral_command cfg timestamp mode = record {
    timestamp = timestamp;
    cameras = or_front_center cfg.camera_pointing_cameras;
    mode = mode;
    source_track_id = "";
    agent_id = "";
    identity_id = "";
    pitch_rad = nought;
    pitch_unclamped_rad = nought;
    pitch_min_rad = cfg.camera_pitch_min_rad;
    pitch_max_rad = cfg.camera_pitch_max_rad;
    target_elevation_rad = nought;
    target_bearing_rad = nought;
    yaw_rad = nought;
    range_xy_m = nought;
    delta_z_m = nought;
    pitch_sign = cfg.camera_pitch_sign;
    pitch_offset_rad = cfg.camera_pitch_offset_rad;
    pitch_valid = true;
    yaw_valid = true;
    pitch_clamped = false;
  }

  unfoldable pub neutral_camera_pointing_command :
      ObjectBehaviorMissionConfig R → ℤ → String → Option (CameraPointingCommand R)
  unfolding neutral_command
  neutral_camera_pointing_command cfg timestamp mode =
      if not (stares cfg.vertical_stare_mode) || is_off mode
      then none
      else some (neutral_command cfg timestamp mode)

  pub pointed_command :
      ObjectBehaviorMissionConfig R → ℤ → EgoState R → Vec3 R → String → CameraPointingCommand R
  unfolding neutral_command
  pointed_command cfg timestamp ego to mode =
      let from = ego.local_T_body.position in
      let tiny = decimal (pos 1) 6 in
      let dx = sub to.x from.x in
      let dy = sub to.y from.y in
      let dz = sub to.z from.z in
      let raw_range_xy = hypot dx dy in
      let range_xy = max_double raw_range_xy tiny in
      let elevation = atan2 dz range_xy in
      let bearing = if lt tiny raw_range_xy then atan2 dy dx else ego.local_T_body.rotation_rpy.z in
      let unclamped = add (mul cfg.camera_pitch_sign elevation) cfg.camera_pitch_offset_rad in
      let pitch =
        max_double cfg.camera_pitch_min_rad (min_double cfg.camera_pitch_max_rad unclamped) in
      record (neutral_command cfg timestamp mode) {
        pitch_rad = pitch;
        pitch_unclamped_rad = unclamped;
        target_elevation_rad = elevation;
        target_bearing_rad = bearing;
        yaw_rad = bearing;
        range_xy_m = range_xy;
        delta_z_m = dz;
        pitch_clamped = lt (decimal (pos 1) 9) (abs (sub pitch unclamped));
      }

  unfoldable pub camera_pointing_command_to_point :
      ObjectBehaviorMissionConfig R
      → ℤ
      → EgoState R
      → Vec3 R
      → String
      → Option (CameraPointingCommand R)
  unfolding pointed_command
  camera_pointing_command_to_point cfg timestamp ego to mode =
      if not (stares cfg.vertical_stare_mode) || is_off mode
      then none
      else if is_neutral mode
      then neutral_camera_pointing_command cfg timestamp mode
      else some (pointed_command cfg timestamp ego to mode)

  camera_pointing_command :
      ObjectBehaviorMissionConfig R
      → Flight R
      → ℤ
      → EgoState R
      → TargetSelection R
      → String
      → Option (CameraPointingCommand R)
  camera_pointing_command cfg f timestamp ego selection mode =
      let effective = if empty_string mode then "target" else mode in
      if is_neutral effective
      then neutral_camera_pointing_command cfg timestamp effective
      else if is_homing effective && f.home_initialized
      then camera_pointing_command_to_point cfg timestamp ego f.home_pose.position effective
      else elim (camera_pointing_command_to_point cfg timestamp ego selection.position_local
          effective) [
            | none ↦ none
            | some command ↦ some (record command {
              source_track_id = selection.source_track_id;
              agent_id = selection.agent_id;
              identity_id = selection.identity_id;
            })
          ]

  pub camera_pointing_command_for_behavior :
      ObjectBehaviorMissionConfig R
      → Flight R
      → ℤ
      → EgoState R
      → TargetSelection R
      → BehaviorSpec R
      → Option (CameraPointingCommand R)
  unfolding camera_pointing_command
  camera_pointing_command_for_behavior cfg f timestamp ego selection behavior =
      let mode =
        if empty_string behavior.camera_pointing_mode
        then "target"
        else behavior.camera_pointing_mode in
      camera_pointing_command cfg f timestamp ego selection mode

  -- `if (auto camera_pointing = …) { emit_camera_pointing(output, *camera_pointing); }`.
  unfoldable pub emit_camera_pointing :
      Option (CameraPointingCommand R) → MissionTickOutput R → MissionTickOutput R
  emit_camera_pointing none o = o
  emit_camera_pointing (some command) o = record o {
    camera_pointing = some command;
    events = o.events ++ (ControllerEventKind.camera_pointing_intent ∷ []);
  }

  pub emit-command :
      (p : Option (CameraPointingCommand R)) (o : MissionTickOutput R)
      → (emit_camera_pointing p o).command ≡ o.command
  unfolding emit_camera_pointing
  emit-command none o = refl
  emit-command (some p) o = refl
