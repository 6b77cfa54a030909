-- ===== src/Examples/Spec.antt =====
-- A concrete specification: a sequence of one circle.
use dedalus.Base.{ℤ, pos, none, some, String, str_eq, if◌then◌else◌, ◌≡◌, refl}
use dedalus.Base.Fixed.{fixed}
use dedalus.Mission.{ClassLabel}
use dedalus.Target.{TargetSelectionPolicy}
use dedalus.Behavior.{BehaviorType, CircleDirection}
use dedalus.Spec.{ok}
use dedalus.Spec.Names.{
  ReferenceFrame, CompletionAction, TargetLostFallback, class_label_from_string,
}
use dedalus.Spec.Nodes.{ConfigNode, Entries, Nodes, SpecText, optional_double, optional_string}
use dedalus.Spec.Records.{MissionSpec, Motion, Orbit, Shape, behavior, no_steps, step}
use dedalus.Spec.Fields.{
  no_profile, parse_motion, parse_orbit, parse_shape, parse_target_selector, read_selector,
}
use dedalus.Spec.Decode.{
  assemble, check_behavior, check_type, parse_behavior, parse_completion, parse_fallback,
  parse_root, parse_steps, steps_in, steps_of,
}
use dedalus.Spec.Missions.{MissionChecked, parse_root-Checked}

-- Reads one numeral only.
instance abbrev texts : SpecText ℤ
texts = record { stod = λ s. if str_eq s "20" then some (pos 20_000_000) else none; lower = λ s. s }

abbrev field : String → String → Entries → Entries
field key value entries = Entries.entry key (ConfigNode.scalar value) entries

abbrev circle_node : ConfigNode
circle_node =
    ConfigNode.map
      (field "type" "circle" (field "radius_m" "20" (field "angular_speed_deg_s" "20" Entries.end)))

abbrev root : ConfigNode
root = ConfigNode.map (
    Entries.entry "target"
      (ConfigNode.map (
        Entries.entry "selector" (ConfigNode.map (field "class" "person" Entries.end)) Entries.end))
      (Entries.entry "behavior"
        (ConfigNode.map (
          field "type" "sequence" (
            Entries.entry "steps" (ConfigNode.sequence (Nodes.cons circle_node Nodes.nil))
              Entries.end)))
        Entries.end))

abbrev motion_of : BehaviorType → Motion ℤ
motion_of t = record {
  behavior_type = t;
  target_frame = ReferenceFrame.world_local_frame;
  relative_offset_m = none;
  max_speed_mps = pos 1_000_000;
  max_vertical_speed_mps = pos 1_000_000;
  position_tolerance_m = pos 1_000_000;
  lost_target_timeout_s = pos 5_000_000;
  yaw_mode = "";
  camera_pointing_mode = "";
}

abbrev shape_of : ℤ → Shape ℤ
shape_of radius = record {
  radius_m = radius;
  altitude_offset_m = pos 0;
  altitude_profile = no_profile;
}

abbrev orbit_of : ℤ → Orbit ℤ
orbit_of speed = record {
  angular_speed_deg_s = speed;
  direction = CircleDirection.clockwise;
  orbit_count = pos 0;
  stop_distance_m = pos 0;
  duration_s = pos 0;
}

abbrev spec : MissionSpec ℤ
spec = record {
  mission_name = "object_behavior";
  target = record {
    class_label = ClassLabel.person;
    track_id = "";
    agent_id = "";
    confidence_min = pos 500_000;
    policy = TargetSelectionPolicy.highest_confidence;
    reacquire_timeout_s = pos 5_000_000;
  };
  behavior = behavior (motion_of BehaviorType.sequence) (shape_of (pos 0)) (orbit_of (pos 0)) (
      step
        (behavior (motion_of BehaviorType.circle) (shape_of (pos 20_000_000))
          (orbit_of (pos 20_000_000)) no_steps)
        no_steps);
  completion = record { after_s = pos 0; then_action = CompletionAction.none };
  fallback = record {
    on_target_lost = TargetLostFallback.none;
    hold_s = pos 5_000_000;
    search_s = pos 10_000_000;
  };
}

parsed : parse_root root ≡ ok spec
unfolding parse_root parse_target_selector read_selector class_label_from_string optional_string
    optional_double parse_behavior steps_in steps_of parse_steps assemble parse_motion parse_shape
    parse_orbit check_behavior check_type parse_completion parse_fallback
parsed = refl

parse_root-Checked_example : MissionChecked root spec
parse_root-Checked_example = parse_root-Checked root spec parsed
