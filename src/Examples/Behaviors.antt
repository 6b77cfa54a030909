-- ===== src/Examples/Behaviors.antt =====
-- Concrete ticks of the parts of the two controllers.
use dedalus.Base.{arith, ◌∷◌, ℤ, pos, ltb_ℤ, some, [], true, false, ◌≡◌, refl}
use dedalus.Base.Fixed.{fixed, Fixed-IsIeee}
use dedalus.Mission.{MissionLifecycleState, Vec3}
use dedalus.Trajectory.{SegmentDirection, SegmentType, TrajectorySegment}
use dedalus.Trajectory.Controller.{
  TrajectoryMissionConfig, TrajectoryMissionController, advance_segment_if_needed, advance_segments,
}
use dedalus.Trajectory.Controller
use dedalus.Trajectory.Controller.Advance.{Advances, advance_segment_if_needed_lem}
use dedalus.Behavior.{BehaviorSpec, BehaviorType, ObjectBehaviorMissionController}
use dedalus.Behavior.Tick
use dedalus.Behavior.Camera.{camera_pointing_command_to_point, pointed_command}
use dedalus.Behavior.Camera.Limits.{camera_pointing_command_to_point-limits}
use dedalus.Behavior.Execute.{tick_execute_mission}
use dedalus.Behavior.Execute.Finish.{Finishes, tick_execute_mission-Finishes}
use dedalus.Behavior.Geometry.{enforce_min_height_floor}
use dedalus.Behavior.Geometry.Floor.{IsFloored, enforce_min_height_floor_lem}
use dedalus.Behavior.Sequence.{active_behavior}
use dedalus.Behavior.Sequence.Wrap.{IsRounded, Wraps, update_circle_orbit_progress-Wraps}
use dedalus.Examples.{behavior_config, east, input, metres, snapshot, trajectory_config}

-- Three seconds into the first of two segments, of one second and of five.
abbrev segment : ℤ → TrajectorySegment ℤ
segment duration = record {
  segment_type = SegmentType.hold;
  label = "hold";
  duration_s = duration;
  vx_mps = pos 0;
  vy_mps = pos 0;
  vz_mps = pos 0;
  speed_mps = pos 0;
  radius_m = metres 1;
  scale_m = metres 1;
  yaw_offset_rad = pos 0;
  direction = SegmentDirection.cw;
  keyframes = [];
}

abbrev two_segments : TrajectoryMissionConfig ℤ
two_segments = record trajectory_config {
  trajectory = segment (metres 1) ∷ segment (metres 5) ∷ [];
}

abbrev overdue : TrajectoryMissionController ℤ
overdue = record Controller.initial_controller { segment_elapsed_s = metres 3 }

advance_segment_if_needed_lem_example :
    Advances two_segments.trajectory overdue (advance_segment_if_needed two_segments overdue)
advance_segment_if_needed_lem_example = advance_segment_if_needed_lem two_segments overdue

sub_mono :
    (a b x y : ℤ)
    → fixed.le a b ≡ true
    → fixed.le x y ≡ true
    → fixed.le (fixed.sub a y) (fixed.sub b x) ≡ true
sub_mono a b x y h k = ground (arith, h, k)

add_mono : (a b x : ℤ) → fixed.le a b ≡ true → fixed.le (fixed.add a x) (fixed.add b x) ≡ true
add_mono a b x h = ground (arith, h)

Fixed-IsRounded : IsRounded ℤ
Fixed-IsRounded = record {
  le_refl = λ a h. ground arith;
  le_trans = λ a b c h k. ground arith;
  le_of_lt = λ a b h. ground arith;
  finite_between = λ a b c f g h k. refl;
  sub_mono = λ a b x y fa fb fx fy h k. sub_mono a b x y h k;
  add_mono = λ a b x fa fb fx h. add_mono a b x h;
  pi_finite = (refl, refl, refl, refl);
  pi_positive = (refl, refl);
  pi_exact = (refl, refl, refl, refl, refl, refl);
}

abbrev orbit : BehaviorSpec ℤ
orbit = record behavior_config.behavior_spec.behavior {
  behavior_type = BehaviorType.circle;
  orbit_count = metres 2;
}

-- The orbit crosses the end of the range: from 3 to -3.
abbrev orbiting : ObjectBehaviorMissionController ℤ
orbiting = record Tick.initial_controller {
  circle_orbit_tracking = true;
  circle_previous_angle_rad = metres 3;
}

update_circle_orbit_progress-Wraps_example : Wraps 7 orbit true (ℤ.negsuc 2_999_999) orbiting
update_circle_orbit_progress-Wraps_example =
    update_circle_orbit_progress-Wraps Fixed-IsIeee Fixed-IsRounded 7 orbit true
      (ℤ.negsuc 2_999_999) orbiting (refl, refl) (refl, refl)

abbrev far : Vec3 ℤ
far = record { x = metres 4; y = metres 3; z = metres 9 }

points :
    camera_pointing_command_to_point behavior_config
      (pos 0)
      (snapshot [] true (metres 8)).ego
      far
      "target"
    ≡ some (pointed_command behavior_config (pos 0) (snapshot [] true (metres 8)).ego far "target")
unfolding camera_pointing_command_to_point
points = refl

camera_pointing_command_to_point-limits_example :
    (ltb_ℤ
        (pointed_command behavior_config
          (pos 0)
          (snapshot [] true (metres 8)).ego
          far
          "target").pitch_rad
        (pos 0)
      ≡ false)
    × (ltb_ℤ
          (metres 1)
          (pointed_command behavior_config
            (pos 0)
            (snapshot [] true (metres 8)).ego
            far
            "target").pitch_rad
        ≡ false)
camera_pointing_command_to_point-limits_example =
    camera_pointing_command_to_point-limits Fixed-IsIeee behavior_config (pos 0)
      (snapshot [] true (metres 8)).ego far "target"
      (pointed_command behavior_config (pos 0) (snapshot [] true (metres 8)).ego far "target") refl
      refl points

abbrev sinking : Vec3 ℤ
sinking = record { x = metres 1; y = pos 0; z = metres 1 }

abbrev floored : Vec3 ℤ
floored = enforce_min_height_floor sinking (metres 2) (metres 3) (metres 1)

enforce_min_height_floor_lem_example :
    IsFloored Fixed-IsIeee sinking (metres 2) (metres 3) (metres 1) floored
enforce_min_height_floor_lem_example =
    enforce_min_height_floor_lem Fixed-IsIeee sinking (metres 2) (metres 3) (metres 1) refl refl
      refl

tick_execute_mission-Finishes_example :
    Finishes east behavior_config
      (active_behavior behavior_config Tick.initial_controller)
      Tick.initial_controller
      (tick_execute_mission east behavior_config
        (input 9 true (metres 8) true)
        (metres 8)
        Tick.initial_controller
        (Tick.fresh_output MissionLifecycleState.execute_mission))
tick_execute_mission-Finishes_example =
    tick_execute_mission-Finishes east behavior_config (input 9 true (metres 8) true) (metres 8)
      Tick.initial_controller (Tick.fresh_output MissionLifecycleState.execute_mission) refl
