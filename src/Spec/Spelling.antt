-- ===== src/Spec/Spelling.antt =====
-- The names that are read are those that are written, with three more spellings.
use dedalus.Base.{String, eq_iff, ◌≡◌, refl, ◌⊎◌, arith}
use dedalus.Target.{TargetSelectionPolicy}
use dedalus.Behavior.{BehaviorType, CircleDirection}
use dedalus.Spec.{Result, ok}
use dedalus.Spec.Names

-- `read` undoes `write`, and accepts nothing but the names that `write` gives and spellings `extra`.
pub record Spells {A : Type 0} (write : A → String) (read : String → Result A)
    (extra : A → String → Type 0) : Type 0 where
  pub reads_back : (a : A) → read (write a) ≡ ok a
  pub only : (s : String) (a : A) → read s ≡ ok a → (s ≡ write a) ⊎ extra a s

abbrev pub NoSpelling : {A : Type 0} → A → String → Type 0
NoSpelling a s = ⊥

policy_back : (a : TargetSelectionPolicy) → Names.parse_policy (Names.policy_to_string a) ≡ ok a
policy_back TargetSelectionPolicy.highest_confidence = refl
policy_back TargetSelectionPolicy.nearest = refl
policy_back TargetSelectionPolicy.persistent_track = refl

policy-Spells : Spells Names.policy_to_string Names.parse_policy NoSpelling
policy-Spells = record {
  reads_back = policy_back;
  only = λ s a h.
      ground
        (arith, h, eq_iff s "highest_confidence", eq_iff s "nearest", eq_iff s "persistent_track");
}

behavior_type_back : (a : BehaviorType) → Names.parse_behavior_type (Names.type_to_string a) ≡ ok a
behavior_type_back BehaviorType.hold = refl
behavior_type_back BehaviorType.search = refl
behavior_type_back BehaviorType.follow = refl
behavior_type_back BehaviorType.approach = refl
behavior_type_back BehaviorType.circle = refl
behavior_type_back BehaviorType.go_home = refl
behavior_type_back BehaviorType.land = refl
behavior_type_back BehaviorType.go_home_land = refl
behavior_type_back BehaviorType.sequence = refl

behavior_type-Spells : Spells Names.type_to_string Names.parse_behavior_type NoSpelling
behavior_type-Spells = record {
  reads_back = behavior_type_back;
  only = λ s a h. ground (
    arith,
    h,
    eq_iff s "hold",
    eq_iff s "search",
    eq_iff s "follow",
    eq_iff s "approach",
    eq_iff s "circle",
    eq_iff s "go_home",
    eq_iff s "land",
    eq_iff s "go_home_land",
    eq_iff s "sequence",
  );
}

frame_back :
    (a : Names.ReferenceFrame) → Names.parse_reference_frame (Names.frame_to_string a) ≡ ok a
frame_back Names.ReferenceFrame.target_heading_frame = refl
frame_back Names.ReferenceFrame.world_local_frame = refl
frame_back Names.ReferenceFrame.drone_heading_frame = refl
frame_back Names.ReferenceFrame.camera_frame = refl

frame-Spells : Spells Names.frame_to_string Names.parse_reference_frame NoSpelling
frame-Spells = record {
  reads_back = frame_back;
  only = λ s a h. ground (
    arith,
    h,
    eq_iff s "target_heading_frame",
    eq_iff s "world_local_frame",
    eq_iff s "drone_heading_frame",
    eq_iff s "camera_frame",
  );
}

direction_back :
    (a : CircleDirection) → Names.parse_circle_direction (Names.direction_to_string a) ≡ ok a
direction_back CircleDirection.clockwise = refl
direction_back CircleDirection.counter_clockwise = refl

direction-Spells :
    Spells Names.direction_to_string Names.parse_circle_direction
      (λ a s. (a ≡ CircleDirection.counter_clockwise) × (s ≡ "counterclockwise"))
direction-Spells = record {
  reads_back = direction_back;
  only = λ s a h.
      ground
        (arith, h, eq_iff s "clockwise", eq_iff s "counter_clockwise", eq_iff s "counterclockwise");
}

action_back :
    (a : Names.CompletionAction) → Names.parse_completion_action (Names.action_to_string a) ≡ ok a
action_back Names.CompletionAction.none = refl
action_back Names.CompletionAction.hold = refl
action_back Names.CompletionAction.go_home = refl
action_back Names.CompletionAction.land = refl
action_back Names.CompletionAction.go_home_land = refl

action-Spells :
    Spells Names.action_to_string Names.parse_completion_action
      (λ a s. (a ≡ Names.CompletionAction.none) × (s ≡ ""))
action-Spells = record {
  reads_back = action_back;
  only = λ s a h. ground (
    arith,
    h,
    eq_iff s "none",
    eq_iff s "hold",
    eq_iff s "go_home",
    eq_iff s "land",
    eq_iff s "go_home_land",
    eq_iff s "",
  );
}

fallback_back :
    (a : Names.TargetLostFallback)
    → Names.parse_target_lost_fallback (Names.fallback_to_string a) ≡ ok a
fallback_back Names.TargetLostFallback.none = refl
fallback_back Names.TargetLostFallback.hold_then_go_home = refl
fallback_back Names.TargetLostFallback.search_then_go_home = refl
fallback_back Names.TargetLostFallback.abort = refl

fallback-Spells :
    Spells Names.fallback_to_string Names.parse_target_lost_fallback
      (λ a s. (a ≡ Names.TargetLostFallback.none) × (s ≡ ""))
fallback-Spells = record {
  reads_back = fallback_back;
  only = λ s a h. ground (
    arith,
    h,
    eq_iff s "none",
    eq_iff s "hold_then_go_home",
    eq_iff s "search_then_go_home",
    eq_iff s "abort",
    eq_iff s "",
  );
}

-- Each enumeration reads back every name that it writes, and reads no other text but the spelling
-- counterclockwise and, for the action at completion and the fallback, the empty text as none.
pub names-Spells :
    Spells Names.policy_to_string Names.parse_policy NoSpelling
    × Spells Names.type_to_string Names.parse_behavior_type NoSpelling
    × Spells Names.frame_to_string Names.parse_reference_frame NoSpelling
    × Spells Names.direction_to_string Names.parse_circle_direction
        (λ a s. (a ≡ CircleDirection.counter_clockwise) × (s ≡ "counterclockwise"))
    × Spells Names.action_to_string Names.parse_completion_action
        (λ a s. (a ≡ Names.CompletionAction.none) × (s ≡ ""))
    × Spells Names.fallback_to_string Names.parse_target_lost_fallback
        (λ a s. (a ≡ Names.TargetLostFallback.none) × (s ≡ ""))
names-Spells = (
  policy-Spells, behavior_type-Spells, frame-Spells, direction-Spells, action-Spells,
  fallback-Spells,
)
