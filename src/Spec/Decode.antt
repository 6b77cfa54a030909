-- ===== src/Spec/Decode.antt =====
-- Reading a behaviour with its steps, and the mission: src/behavior/behavior_spec.cpp.
use dedalus.Base.{pos, not, ◌||◌, none, some, has_value, str_eq, if◌then◌else◌, Double, nought}
use dedalus.Behavior.{BehaviorType}
use dedalus.Spec.{SpecError, Result, ok, raise, ◌>>=◌, reject_if}
use dedalus.Spec.Names.{
  CompletionAction, TargetLostFallback, parse_completion_action, parse_target_lost_fallback,
  action_to_string, fallback_to_string,
}
use dedalus.Spec.Nodes.{
  ConfigNode, Entries, Nodes, undefined, scalar, map, sequence, end, entry, nil, cons, SpecText,
  child, five, is_map, optional_double, optional_string, required_child,
}
use dedalus.Spec.Records.{
  BehaviorTree, CompletionSpec, FallbackSpec, MissionSpec, Motion, Orbit, Shape, Steps, behavior,
  no_step, no_steps, step,
}
use dedalus.Spec.Fields.{parse_motion, parse_orbit, parse_shape, parse_target_selector}

module _ {R : Type 0} ⦃d : Double R⦄ ⦃text : SpecText R⦄ where
  -- The switch over the type.
  unfoldable pub check_type :
      BehaviorType → Motion R → Shape R → Orbit R → Steps R → Result {0} Unit
  check_type BehaviorType.follow m s o steps =
      reject_if (not (has_value m.relative_offset_m)) (SpecError.missing_field "relative_offset_m")
  check_type BehaviorType.circle m s o steps = do
    _ ← reject_if (d.le s.radius_m nought) (SpecError.invalid_field "radius_m")
    reject_if (d.le o.angular_speed_deg_s nought) (SpecError.invalid_field "angular_speed_deg_s")
  check_type BehaviorType.approach m s o steps =
      reject_if (d.le o.stop_distance_m nought) (SpecError.invalid_field "stop_distance_m")
  check_type BehaviorType.sequence m s o steps =
      reject_if (no_step steps) (SpecError.invalid_field "steps")
  check_type _ m s o steps = ok tt

  unfoldable pub check_behavior : Motion R → Shape R → Orbit R → Steps R → Result {0} Unit
  check_behavior m s o steps = do
    _ ← reject_if (d.le m.max_speed_mps nought) (SpecError.invalid_field "max_speed_mps")
    _ ←
        reject_if (d.le m.max_vertical_speed_mps nought)
          (SpecError.invalid_field "max_vertical_speed_mps")
    _ ←
        reject_if (d.lt m.position_tolerance_m nought)
          (SpecError.invalid_field "position_tolerance_m")
    _ ←
        reject_if (d.lt m.lost_target_timeout_s nought)
          (SpecError.invalid_field "lost_target_timeout_s")
    _ ← reject_if (d.lt o.orbit_count nought) (SpecError.invalid_field "orbit_count")
    check_type m.behavior_type m s o steps

  -- The fields in their order, then the steps, then the checks.
  unfoldable pub assemble : ConfigNode → Result (Steps R) → Result (BehaviorTree R)
  assemble node read_steps = do
    m ← parse_motion node
    s ← parse_shape node
    o ← parse_orbit node
    steps ← read_steps
    _ ← check_behavior m s o steps
    ok (behavior m s o steps)

  unfoldable mutual
    pub parse_behavior : ConfigNode → Result (BehaviorTree R)
    parse_behavior (map entries) = assemble (map entries) (steps_in entries)
    parse_behavior undefined = assemble undefined (ok no_steps)
    parse_behavior (scalar t) = assemble (scalar t) (ok no_steps)
    parse_behavior (sequence nodes) = assemble (sequence nodes) (ok no_steps)

    -- The steps of the first entry of that name.
    pub steps_in : Entries → Result (Steps R)
    steps_in end = ok no_steps
    steps_in (entry key node entries) =
        let rest = steps_in entries in
        let here = steps_of node in if str_eq key "steps" then here else rest

    pub steps_of : ConfigNode → Result (Steps R)
    steps_of (sequence nodes) = parse_steps nodes
    steps_of undefined = raise (SpecError.invalid_field "steps")
    steps_of (scalar t) = raise (SpecError.invalid_field "steps")
    steps_of (map entries) = raise (SpecError.invalid_field "steps")

    pub parse_steps : Nodes → Result (Steps R)
    parse_steps nil = ok no_steps
    parse_steps (cons node nodes) = do
      first ← parse_behavior node
      rest ← parse_steps nodes
      ok (step first rest)

  unfoldable pub parse_completion : ConfigNode → Result (CompletionSpec R)
  parse_completion root = elim (child root "completion") [
    | none ↦ ok (record { after_s = nought; then_action = CompletionAction.none })
    | some completion ↦ do
      after_s ← optional_double completion "after_s" nought
      action_name ← optional_string completion "then" (action_to_string CompletionAction.none)
      then_action ← parse_completion_action action_name
      _ ← reject_if (d.lt after_s nought) (SpecError.invalid_field "after_s")
      ok (record { after_s = after_s; then_action = then_action })
  ]

  unfoldable pub parse_fallback : ConfigNode → Result (FallbackSpec R)
  parse_fallback root = elim (child root "fallback") [
    | none ↦ ok (record {
      on_target_lost = TargetLostFallback.none;
      hold_s = five;
      search_s = d.of_int (pos 10);
    })
    | some fallback ↦ do
      name ← optional_string fallback "on_target_lost" (fallback_to_string TargetLostFallback.none)
      on_target_lost ← parse_target_lost_fallback name
      hold_s ← optional_double fallback "hold_s" five
      search_s ← optional_double fallback "search_s" (d.of_int (pos 10))
      _ ← reject_if (d.lt hold_s nought || d.lt search_s nought) (SpecError.invalid_field "hold_s")
      ok (record { on_target_lost = on_target_lost; hold_s = hold_s; search_s = search_s })
  ]

  -- `parse_behavior_spec_text` after the text has become a tree.
  unfoldable pub parse_root : ConfigNode → Result (MissionSpec R)
  parse_root root = do
    _ ← reject_if (not (is_map root)) SpecError.root_not_a_map
    mission_name ← (elim (child root "mission") [
      | none ↦ ok "object_behavior"
      | some mission ↦ optional_string mission "name" "object_behavior"
    ])
    target ← parse_target_selector root
    node ← required_child root "behavior"
    behavior_tree ← parse_behavior node
    completion ← parse_completion root
    fallback ← parse_fallback root
    ok (record {
      mission_name = mission_name;
      target = target;
      behavior = behavior_tree;
      completion = completion;
      fallback = fallback;
    })
