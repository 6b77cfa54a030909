-- ===== src/Spec/Fields.antt =====
-- Reading the groups of fields: src/behavior/behavior_spec.cpp.
use dedalus.Base.{
  String, pos, Bool, true, false, not, ◌&&◌, ◌||◌, Option, none, some, has_value, str_eq,
  if◌then◌else◌, Double, nought,
}
use dedalus.Mission.{ClassLabel}
use dedalus.Target.{TargetSelectionPolicy, TargetSelectorSpec}
use dedalus.Behavior.{CircleDirection}
use dedalus.Spec.{SpecError, Result, ok, ◌>>=◌, reject_if}
use dedalus.Spec.Names.{
  ReferenceFrame, parse_behavior_type, parse_circle_direction, parse_policy, parse_reference_frame,
  class_label_from_string, policy_to_string, frame_to_string, direction_to_string,
}
use dedalus.Spec.Nodes.{
  ConfigNode, SpecText, child, five, one, optional_double, optional_string, required_child,
  required_double, scalar_string,
}
use dedalus.Spec.Records.{AltitudeProfileSpec, BehaviorVector3, Motion, Orbit, Shape}

abbrev pub is_unknown : ClassLabel → Bool
is_unknown ClassLabel.unknown = true
is_unknown _ = false

module _ {R : Type 0} ⦃d : Double R⦄ ⦃text : SpecText R⦄ where
  unfoldable pub parse_vector3 : ConfigNode → Result (BehaviorVector3 R)
  parse_vector3 node = do
    x ← required_double node "x"
    y ← required_double node "y"
    z ← required_double node "z"
    ok (record { x = x; y = y; z = z })

  -- What is read after the class and the identifiers.
  unfoldable pub read_selector :
      ConfigNode → ClassLabel → String → String → Result (TargetSelectorSpec R)
  read_selector selector label track_id agent_id = do
    _ ← reject_if (is_unknown label) (SpecError.invalid_field "class")
    confidence_min ← optional_double selector "confidence_min" (d.decimal (pos 5) 1)
    policy_name ←
        optional_string selector "policy"
          (policy_to_string TargetSelectionPolicy.highest_confidence)
    policy ← parse_policy policy_name
    reacquire_timeout_s ← optional_double selector "reacquire_timeout_s" five
    _ ←
        reject_if (d.lt confidence_min nought || d.lt one confidence_min)
          (SpecError.invalid_field "confidence_min")
    _ ← reject_if (d.lt reacquire_timeout_s nought) (SpecError.invalid_field "reacquire_timeout_s")
    ok (record {
      class_label = label;
      track_id = track_id;
      agent_id = agent_id;
      confidence_min = confidence_min;
      policy = policy;
      reacquire_timeout_s = reacquire_timeout_s;
    })

  unfoldable pub parse_target_selector : ConfigNode → Result (TargetSelectorSpec R)
  parse_target_selector root = do
    target ← required_child root "target"
    selector ← required_child target "selector"
    class_node ← required_child selector "class"
    class_name ← scalar_string class_node "class"
    track_id ← optional_string selector "track_id" ""
    agent_id ← optional_string selector "agent_id" ""
    read_selector selector (class_label_from_string (text.lower class_name)) track_id agent_id

  -- The two heights.
  unfoldable pub profile_heights : ConfigNode → Result (R × R)
  profile_heights node =
      if has_value (child node "hold_height_m")
      then (do height ← required_double node "hold_height_m"; ok (height, height))
      else (do
        _ ←
            reject_if
              (not (has_value (child node "start_height_m"))
                || not (has_value (child node "end_height_m")))
              (SpecError.missing_field "start_height_m")
        start ← required_double node "start_height_m"
        stop ← required_double node "end_height_m"
        ok (start, stop))

  unfoldable pub check_profile : AltitudeProfileSpec R → Result {0} Unit
  check_profile profile = do
    _ ← reject_if (d.lt profile.start_height_m nought) (SpecError.invalid_field "start_height_m")
    _ ← reject_if (d.lt profile.end_height_m nought) (SpecError.invalid_field "end_height_m")
    _ ← reject_if (d.lt profile.duration_s nought) (SpecError.invalid_field "duration_s")
    reject_if (not (str_eq profile.easing "smoothstep") && not (str_eq profile.easing "linear"))
        (SpecError.invalid_field "easing")

  unfoldable pub parse_altitude_profile : ConfigNode → Result (AltitudeProfileSpec R)
  parse_altitude_profile node = do
    easing ← optional_string node "easing" "smoothstep"
    duration_s ← optional_double node "duration_s" nought
    heights ← profile_heights node
    let profile : AltitudeProfileSpec R = record {
      enabled = true;
      start_height_m = heights.0;
      end_height_m = heights.1;
      duration_s = duration_s;
      easing = easing;
    }
    _ ← check_profile profile
    ok profile

  abbrev pub parse_offset : Option ConfigNode → Result (Option (BehaviorVector3 R))
  parse_offset none = ok none
  parse_offset (some node) = do v ← parse_vector3 node; ok (some v)

  abbrev pub no_profile : AltitudeProfileSpec R
  no_profile = record {
    enabled = false;
    start_height_m = nought;
    end_height_m = nought;
    duration_s = nought;
    easing = "smoothstep";
  }

  abbrev pub parse_profile : Option ConfigNode → Result (AltitudeProfileSpec R)
  parse_profile none = ok no_profile
  parse_profile (some node) = parse_altitude_profile node

  unfoldable pub parse_motion : ConfigNode → Result (Motion R)
  parse_motion node = do
    type_node ← required_child node "type"
    type_name ← scalar_string type_node "type"
    behavior_type ← parse_behavior_type type_name
    frame_name ←
        optional_string node "target_frame" (frame_to_string ReferenceFrame.world_local_frame)
    target_frame ← parse_reference_frame frame_name
    relative_offset_m ← parse_offset (child node "relative_offset_m")
    max_speed_mps ← optional_double node "max_speed_mps" one
    max_vertical_speed_mps ← optional_double node "max_vertical_speed_mps" one
    position_tolerance_m ← optional_double node "position_tolerance_m" one
    lost_target_timeout_s ← optional_double node "lost_target_timeout_s" five
    yaw_mode ← optional_string node "yaw_mode" ""
    camera_pointing_mode ← optional_string node "camera_pointing_mode" ""
    ok (record {
      behavior_type = behavior_type;
      target_frame = target_frame;
      relative_offset_m = relative_offset_m;
      max_speed_mps = max_speed_mps;
      max_vertical_speed_mps = max_vertical_speed_mps;
      position_tolerance_m = position_tolerance_m;
      lost_target_timeout_s = lost_target_timeout_s;
      yaw_mode = yaw_mode;
      camera_pointing_mode = camera_pointing_mode;
    })

  unfoldable pub parse_shape : ConfigNode → Result (Shape R)
  parse_shape node = do
    radius_m ← optional_double node "radius_m" nought
    altitude_offset_m ← optional_double node "altitude_offset_m" nought
    altitude_profile ← parse_profile (child node "altitude_profile")
    ok (record {
      radius_m = radius_m;
      altitude_offset_m = altitude_offset_m;
      altitude_profile = altitude_profile;
    })

  unfoldable pub parse_orbit : ConfigNode → Result (Orbit R)
  parse_orbit node = do
    angular_speed_deg_s ← optional_double node "angular_speed_deg_s" nought
    direction_name ←
        optional_string node "direction" (direction_to_string CircleDirection.clockwise)
    direction ← parse_circle_direction direction_name
    orbit_count ← optional_double node "orbit_count" nought
    orbits ←
        (if d.le orbit_count nought
          then optional_double node "orbits" orbit_count
          else ok orbit_count)
    stop_distance_m ← optional_double node "stop_distance_m" nought
    duration_s ← optional_double node "duration_s" nought
    ok (record {
      angular_speed_deg_s = angular_speed_deg_s;
      direction = direction;
      orbit_count = orbits;
      stop_distance_m = stop_distance_m;
      duration_s = duration_s;
    })
