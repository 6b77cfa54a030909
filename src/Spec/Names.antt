-- ===== src/Spec/Names.antt =====
-- The names of the enumerations: `to_string` of src/behavior/behavior_spec_strings.cpp, and the
-- functions of src/behavior/behavior_spec.cpp that read them.
use dedalus.Base.{◌||◌, String, str_eq, if◌then◌else◌}
use dedalus.Mission.{ClassLabel}
use dedalus.Target.{TargetSelectionPolicy}
use dedalus.Behavior.{BehaviorType, CircleDirection}
use dedalus.Spec.{SpecError, Result, ok, raise}

pub data ReferenceFrame : Type 0 where
  target_heading_frame world_local_frame drone_heading_frame camera_frame : ReferenceFrame

pub data CompletionAction : Type 0 where
  none hold go_home land go_home_land : CompletionAction

pub data TargetLostFallback : Type 0 where
  none hold_then_go_home search_then_go_home abort : TargetLostFallback

abbrev pub policy_to_string : TargetSelectionPolicy → String
policy_to_string TargetSelectionPolicy.highest_confidence = "highest_confidence"
policy_to_string TargetSelectionPolicy.nearest = "nearest"
policy_to_string TargetSelectionPolicy.persistent_track = "persistent_track"

abbrev pub type_to_string : BehaviorType → String
type_to_string BehaviorType.hold = "hold"
type_to_string BehaviorType.search = "search"
type_to_string BehaviorType.follow = "follow"
type_to_string BehaviorType.approach = "approach"
type_to_string BehaviorType.circle = "circle"
type_to_string BehaviorType.go_home = "go_home"
type_to_string BehaviorType.land = "land"
type_to_string BehaviorType.go_home_land = "go_home_land"
type_to_string BehaviorType.sequence = "sequence"

abbrev pub frame_to_string : ReferenceFrame → String
frame_to_string ReferenceFrame.target_heading_frame = "target_heading_frame"
frame_to_string ReferenceFrame.world_local_frame = "world_local_frame"
frame_to_string ReferenceFrame.drone_heading_frame = "drone_heading_frame"
frame_to_string ReferenceFrame.camera_frame = "camera_frame"

abbrev pub direction_to_string : CircleDirection → String
direction_to_string CircleDirection.clockwise = "clockwise"
direction_to_string CircleDirection.counter_clockwise = "counter_clockwise"

abbrev pub action_to_string : CompletionAction → String
action_to_string CompletionAction.none = "none"
action_to_string CompletionAction.hold = "hold"
action_to_string CompletionAction.go_home = "go_home"
action_to_string CompletionAction.land = "land"
action_to_string CompletionAction.go_home_land = "go_home_land"

abbrev pub fallback_to_string : TargetLostFallback → String
fallback_to_string TargetLostFallback.none = "none"
fallback_to_string TargetLostFallback.hold_then_go_home = "hold_then_go_home"
fallback_to_string TargetLostFallback.search_then_go_home = "search_then_go_home"
fallback_to_string TargetLostFallback.abort = "abort"

abbrev pub parse_policy : String → Result TargetSelectionPolicy
parse_policy value =
    if str_eq value "highest_confidence"
    then ok TargetSelectionPolicy.highest_confidence
    else if str_eq value "nearest"
    then ok TargetSelectionPolicy.nearest
    else if str_eq value "persistent_track"
    then ok TargetSelectionPolicy.persistent_track
    else raise (SpecError.unknown_name value)

abbrev pub parse_behavior_type : String → Result BehaviorType
parse_behavior_type value =
    if str_eq value "hold"
    then ok BehaviorType.hold
    else if str_eq value "search"
    then ok BehaviorType.search
    else if str_eq value "follow"
    then ok BehaviorType.follow
    else if str_eq value "approach"
    then ok BehaviorType.approach
    else if str_eq value "circle"
    then ok BehaviorType.circle
    else if str_eq value "go_home"
    then ok BehaviorType.go_home
    else if str_eq value "land"
    then ok BehaviorType.land
    else if str_eq value "go_home_land"
    then ok BehaviorType.go_home_land
    else if str_eq value "sequence"
    then ok BehaviorType.sequence
    else raise (SpecError.unknown_name value)

abbrev pub parse_reference_frame : String → Result ReferenceFrame
parse_reference_frame value =
    if str_eq value "target_heading_frame"
    then ok ReferenceFrame.target_heading_frame
    else if str_eq value "world_local_frame"
    then ok ReferenceFrame.world_local_frame
    else if str_eq value "drone_heading_frame"
    then ok ReferenceFrame.drone_heading_frame
    else if str_eq value "camera_frame"
    then ok ReferenceFrame.camera_frame
    else raise (SpecError.unknown_name value)

abbrev pub parse_circle_direction : String → Result CircleDirection
parse_circle_direction value =
    if str_eq value "clockwise"
    then ok CircleDirection.clockwise
    else if str_eq value "counter_clockwise" || str_eq value "counterclockwise"
    then ok CircleDirection.counter_clockwise
    else raise (SpecError.unknown_name value)

abbrev pub parse_completion_action : String → Result CompletionAction
parse_completion_action value =
    if str_eq value "" || str_eq value "none"
    then ok CompletionAction.none
    else if str_eq value "hold"
    then ok CompletionAction.hold
    else if str_eq value "go_home"
    then ok CompletionAction.go_home
    else if str_eq value "land"
    then ok CompletionAction.land
    else if str_eq value "go_home_land"
    then ok CompletionAction.go_home_land
    else raise (SpecError.unknown_name value)

abbrev pub parse_target_lost_fallback : String → Result TargetLostFallback
parse_target_lost_fallback value =
    if str_eq value "" || str_eq value "none"
    then ok TargetLostFallback.none
    else if str_eq value "hold_then_go_home"
    then ok TargetLostFallback.hold_then_go_home
    else if str_eq value "search_then_go_home"
    then ok TargetLostFallback.search_then_go_home
    else if str_eq value "abort"
    then ok TargetLostFallback.abort
    else raise (SpecError.unknown_name value)

-- `lower` is the text in lower case.
unfoldable pub class_label_from_string : String → ClassLabel
class_label_from_string lower =
    if str_eq lower "person"
    then ClassLabel.person
    else if str_eq lower "drone"
    then ClassLabel.drone
    else if str_eq lower "car" || str_eq lower "vehicle"
    then ClassLabel.car
    else if str_eq lower "boat"
    then ClassLabel.boat
    else if str_eq lower "animal"
    then ClassLabel.animal
    else if str_eq lower "house"
    then ClassLabel.house
    else if str_eq lower "building"
    then ClassLabel.building
    else if str_eq lower "tree"
    then ClassLabel.tree
    else if str_eq lower "road"
    then ClassLabel.road
    else if str_eq lower "river"
    then ClassLabel.river
    else if str_eq lower "terrain"
    then ClassLabel.terrain
    else if str_eq lower "pole"
    then ClassLabel.pole
    else if str_eq lower "wall"
    then ClassLabel.wall
    else if str_eq lower "fence"
    then ClassLabel.fence
    else if str_eq lower "cable" || str_eq lower "wire"
    then ClassLabel.cable
    else if str_eq lower "obstacle" || str_eq lower "unknown_obstacle"
    then ClassLabel.obstacle
    else ClassLabel.unknown
