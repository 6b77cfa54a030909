-- ===== src/Behavior/Sequence.antt =====
-- Behaviour sequences and orbits: src/behavior/object_behavior_mission_controller_sequence.cpp, with
-- `completion_elapsed` of src/behavior/object_behavior_mission_controller.cpp.
pub mod Wrap
use dedalus.Base.{
  ◌<◌, ℤ, pos, ℕ, zero, suc, ◌+◌, ◌-◌, min, leb, Bool, true, false, not, ◌||◌, Option, none, some,
  String, str_eq, Double, nought, if◌then◌else◌, length, get_elem?, ◌≡◌, refl, arith,
}
use dedalus.Flight.{seconds_between}
use dedalus.Target.{empty_string}
use dedalus.Behavior.{
  BehaviorType, CircleDirection, BehaviorSpec, ObjectBehaviorMissionConfig,
  ObjectBehaviorMissionController, ObjectBehaviorYawMode,
}

abbrev pub is_sequence : BehaviorType → Bool
is_sequence BehaviorType.sequence = true
is_sequence _ = false

abbrev pub is_circle : BehaviorType → Bool
is_circle BehaviorType.circle = true
is_circle _ = false

-- `none` is `std::invalid_argument`.
pub parse_yaw_mode : String → Option ObjectBehaviorYawMode
parse_yaw_mode value =
    if empty_string value
      || str_eq value "trajectory"
      || str_eq value "travel_direction"
      || str_eq value "from_heading"
    then some ObjectBehaviorYawMode.trajectory
    else if str_eq value "target" || str_eq value "to_target" || str_eq value "stare_at_target"
    then some ObjectBehaviorYawMode.target
    else if str_eq value "hold"
    then some ObjectBehaviorYawMode.hold
    else if str_eq value "none" || str_eq value "disabled"
    then some ObjectBehaviorYawMode.none
    else none

-- Orbit angles come from `atan2`, so a difference lies within one turn of the range.
abbrev pub wrap_fuel : ℕ
wrap_fuel = 2

module _ {R : Type 0} ⦃d : Double R⦄ where
  open d use {lt, le, add, sub, mul, div, neg, of_int, decimal}

  abbrev pub two_pi : R
  two_pi = mul (of_int (pos 2)) (decimal (pos 314159265358979323846) 20)

  abbrev pub pi : R
  pi = decimal (pos 314159265358979323846) 20

  pub circle_direction_sign : CircleDirection → R
  circle_direction_sign CircleDirection.clockwise = of_int (ℤ.negsuc 0)
  circle_direction_sign CircleDirection.counter_clockwise = of_int (pos 1)

  -- `while (delta > kPi) delta -= 2.0 * kPi;` and its mirror image, on fuel.
  pub wrap_down : ℕ → R → R
  wrap_down zero delta = delta
  wrap_down (suc fuel) delta =
      let rest = wrap_down fuel (sub delta two_pi) in if lt pi delta then rest else delta

  pub wrap_up : ℕ → R → R
  wrap_up zero delta = delta
  wrap_up (suc fuel) delta =
      let rest = wrap_up fuel (add delta two_pi) in if lt delta (neg pi) then rest else delta

  -- The two loops, one after the other.
  abbrev pub wrapped : ℕ → R → R
  wrapped fuel delta = wrap_up fuel (wrap_down fuel delta)

  abbrev pub orbit_progress :
      ℕ
      → BehaviorSpec R
      → Bool
      → R
      → ObjectBehaviorMissionController R
      → Bool × ObjectBehaviorMissionController R
  orbit_progress fuel behavior circling angle c =
      if not (is_circle behavior.behavior_type) || le behavior.orbit_count nought
      then (false, c)
      else if not circling
      then (false, record c { circle_orbit_tracking = false })
      else if not c.circle_orbit_tracking
      then (
        false,
        record c {
          circle_orbit_tracking = true;
          circle_previous_angle_rad = angle;
          circle_completed_orbits = nought;
        },
      )
      else (let delta = wrapped fuel (sub angle c.circle_previous_angle_rad) in
          let directed = mul (circle_direction_sign behavior.direction) delta in
          let orbits =
            if lt nought directed
            then add c.circle_completed_orbits (div directed two_pi)
            else c.circle_completed_orbits in
          (
            le behavior.orbit_count orbits,
            record c { circle_completed_orbits = orbits; circle_previous_angle_rad = angle },
          ))

  pub update_circle_orbit_progress :
      BehaviorSpec R
      → Bool
      → R
      → ObjectBehaviorMissionController R
      → Bool × ObjectBehaviorMissionController R
  unfolding circle_direction_sign
  update_circle_orbit_progress = orbit_progress wrap_fuel

  abbrev pub sequence_active : ObjectBehaviorMissionConfig R → Bool
  sequence_active cfg = is_sequence cfg.behavior_spec.behavior.behavior_type

  pub step_or : BehaviorSpec R → Option (BehaviorSpec R) → BehaviorSpec R
  step_or behavior none = behavior
  step_or behavior (some step) = step

  -- An empty list of steps has no element at any index, and the behaviour itself is active.
  unfoldable pub active_behavior :
      ObjectBehaviorMissionConfig R → ObjectBehaviorMissionController R → BehaviorSpec R
  unfolding step_or
  active_behavior cfg c =
      let steps = cfg.behavior_spec.steps in
      if not (sequence_active cfg)
      then cfg.behavior_spec.behavior
      else step_or cfg.behavior_spec.behavior
          (get_elem? steps (min c.sequence_step_index (length steps - 1)))

  pub active_behavior_is_last_sequence_step :
      ObjectBehaviorMissionConfig R → ObjectBehaviorMissionController R → Bool
  active_behavior_is_last_sequence_step cfg c =
      let count = length cfg.behavior_spec.steps in
      if not (sequence_active cfg)
      then true
      else leb count 0 || leb count (c.sequence_step_index + 1)

  pub yaw_mode_for_behavior :
      ObjectBehaviorMissionConfig R → BehaviorSpec R → Option ObjectBehaviorYawMode
  unfolding parse_yaw_mode
  yaw_mode_for_behavior cfg behavior =
      if empty_string behavior.yaw_mode then some cfg.yaw_mode else parse_yaw_mode behavior.yaw_mode

  pub reset_sequence_step :
      ℤ → ObjectBehaviorMissionController R → ObjectBehaviorMissionController R
  reset_sequence_step now c = record c {
    sequence_step_start = now;
    sequence_step_started = true;
    circle_in_orbit_mode = false;
    circle_orbit_tracking = false;
    circle_previous_angle_rad = nought;
    circle_completed_orbits = nought;
    last_behavior_display_detail = "";
  }

  pub reset_behavior_run : ℤ → ObjectBehaviorMissionController R → ObjectBehaviorMissionController R
  unfolding reset_sequence_step
  reset_behavior_run now c = reset_sequence_step now (record c {
    behavior_start = now;
    target_selected_emitted = false;
    behavior_start_emitted = false;
    behavior_complete_emitted = false;
    behavior_tick_sample_emitted = false;
    execute_tick_count = 0;
    previous_selection = none;
    sequence_step_index = 0;
  })

  pub completion_elapsed :
      ObjectBehaviorMissionConfig R → ObjectBehaviorMissionController R → ℤ → Bool
  completion_elapsed cfg c now =
      if le cfg.behavior_spec.completion_after_s nought
      then false
      else le cfg.behavior_spec.completion_after_s (seconds_between c.behavior_start now)

  pub update_circle_orbit_progress-flight :
      (behavior : BehaviorSpec R) (circling : Bool) (angle : R)
      (c : ObjectBehaviorMissionController R)
      → (update_circle_orbit_progress behavior circling angle c).1.flight ≡ c.flight
  unfolding update_circle_orbit_progress
  update_circle_orbit_progress-flight behavior circling angle c = ground arith

  pub reset_sequence_step-flight :
      (now : ℤ) (c : ObjectBehaviorMissionController R)
      → (reset_sequence_step now c).flight ≡ c.flight
  unfolding reset_sequence_step
  reset_sequence_step-flight now c = refl

  pub reset_behavior_run-flight :
      (now : ℤ) (c : ObjectBehaviorMissionController R)
      → (reset_behavior_run now c).flight ≡ c.flight
  unfolding reset_behavior_run
  reset_behavior_run-flight now c = refl

  pub reset_sequence_step-index :
      (now : ℤ) (c : ObjectBehaviorMissionController R)
      → (reset_sequence_step now c).sequence_step_index ≡ c.sequence_step_index
  unfolding reset_sequence_step
  reset_sequence_step-index now c = refl

  pub last_sequence_step_false :
      (cfg : ObjectBehaviorMissionConfig R) (c : ObjectBehaviorMissionController R)
      → active_behavior_is_last_sequence_step cfg c ≡ false
      → c.sequence_step_index + 1 < length cfg.behavior_spec.steps
  unfolding active_behavior_is_last_sequence_step
  last_sequence_step_false cfg c h = ground arith
