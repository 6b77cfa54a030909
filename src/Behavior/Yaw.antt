-- ===== src/Behavior/Yaw.antt =====
-- The yaw of a velocity command: src/behavior/object_behavior_mission_controller.cpp. The methods are
-- `const` there and change two `mutable` members, so they return the controller too.
use dedalus.Base.{ℤ, pos, true, false, ◌&&◌, Double, nought, if◌then◌else◌, ◌≡◌, arith}
use dedalus.Mission.{Vec3, FlightCommandKind, YawSource, EgoState, VelocityCommand}
use dedalus.Target.{TargetSelection}
use dedalus.Behavior.{
  ObjectBehaviorMissionConfig, ObjectBehaviorMissionController, ObjectBehaviorYawMode,
}
use dedalus.Behavior.Geometry.{norm_xy}

module _ {R : Type 0} ⦃d : Double R⦄ where
  open d use {lt, le, add, sub, decimal, atan2}

  abbrev plain_command : ℤ → Vec3 R → VelocityCommand R
  plain_command timestamp v = record {
    kind = FlightCommandKind.velocity;
    timestamp = timestamp;
    velocity_local_mps = v;
    yaw_rate_radps = nought;
    yaw_rad = nought;
    yaw_rate_valid = true;
    yaw_valid = false;
    yaw_source = YawSource.disabled;
  }

  abbrev with_yaw : VelocityCommand R → R → YawSource → VelocityCommand R
  with_yaw c yaw source = record c { yaw_valid = true; yaw_rad = yaw; yaw_source = source }

  abbrev remember_yaw : ObjectBehaviorMissionController R → R → ObjectBehaviorMissionController R
  remember_yaw c yaw = record c { last_stable_yaw_valid = true; last_stable_yaw_rad = yaw }

  pub command_from_velocity :
      ObjectBehaviorMissionConfig R
      → ObjectBehaviorMissionController R
      → ℤ
      → Vec3 R
      → R
      → VelocityCommand R × ObjectBehaviorMissionController R
  command_from_velocity cfg c timestamp v yaw_offset =
      let yaw = add (atan2 v.y v.x) yaw_offset in
      if le cfg.yaw_min_speed_mps (norm_xy v)
      then (with_yaw (plain_command timestamp v) yaw YawSource.trajectory, remember_yaw c yaw)
      else if cfg.yaw_hold_last_when_unstable && c.last_stable_yaw_valid
      then (with_yaw (plain_command timestamp v) c.last_stable_yaw_rad YawSource.hold_last, c)
      else (plain_command timestamp v, c)

  -- `yaw_mode == Target`.
  command_at_target :
      ObjectBehaviorMissionConfig R
      → ObjectBehaviorMissionController R
      → ℤ
      → Vec3 R
      → EgoState R
      → TargetSelection R
      → R
      → VelocityCommand R × ObjectBehaviorMissionController R
  command_at_target cfg c timestamp v ego selection yaw_offset =
      let delta : Vec3 R = record {
        x = sub selection.position_local.x ego.local_T_body.position.x;
        y = sub selection.position_local.y ego.local_T_body.position.y;
        z = nought;
      } in
      let yaw = add (atan2 delta.y delta.x) yaw_offset in
      if lt (decimal (pos 1) 6) (norm_xy delta)
      then (with_yaw (plain_command timestamp v) yaw YawSource.target, remember_yaw c yaw)
      else if cfg.yaw_hold_last_when_unstable && c.last_stable_yaw_valid
      then (with_yaw (plain_command timestamp v) c.last_stable_yaw_rad YawSource.hold_last, c)
      else (plain_command timestamp v, c)

  pub command_from_behavior_velocity :
      ObjectBehaviorMissionConfig R
      → ObjectBehaviorMissionController R
      → ℤ
      → Vec3 R
      → EgoState R
      → TargetSelection R
      → R
      → ObjectBehaviorYawMode
      → VelocityCommand R × ObjectBehaviorMissionController R
  unfolding command_at_target
  command_from_behavior_velocity cfg c timestamp v ego selection yaw_offset
        ObjectBehaviorYawMode.trajectory =
      command_from_velocity cfg c timestamp v yaw_offset
  command_from_behavior_velocity cfg c timestamp v ego selection yaw_offset
        ObjectBehaviorYawMode.none =
      (plain_command timestamp v, c)
  command_from_behavior_velocity cfg c timestamp v ego selection yaw_offset
        ObjectBehaviorYawMode.hold =
      if c.last_stable_yaw_valid
      then (with_yaw (plain_command timestamp v) c.last_stable_yaw_rad YawSource.hold_last, c)
      else (plain_command timestamp v, c)
  command_from_behavior_velocity cfg c timestamp v ego selection yaw_offset
        ObjectBehaviorYawMode.target =
      command_at_target cfg c timestamp v ego selection yaw_offset

  -- What a velocity command leaves of the members: all but the remembered yaw.
  pub command_from_velocity-flight :
      (cfg : ObjectBehaviorMissionConfig R) (c : ObjectBehaviorMissionController R) (timestamp : ℤ)
      (v : Vec3 R) (yaw_offset : R)
      → ((command_from_velocity cfg c timestamp v yaw_offset).1.flight ≡ c.flight)
        × ((command_from_velocity cfg c timestamp v yaw_offset).0.kind ≡ FlightCommandKind.velocity)
        × ((command_from_velocity cfg c timestamp v yaw_offset).0.velocity_local_mps ≡ v)
  unfolding command_from_velocity
  command_from_velocity-flight cfg c timestamp v yaw_offset = ground arith

  pub command_from_behavior_velocity-flight :
      (cfg : ObjectBehaviorMissionConfig R) (c : ObjectBehaviorMissionController R) (timestamp : ℤ)
      (v : Vec3 R) (ego : EgoState R) (selection : TargetSelection R) (yaw_offset : R)
      (mode : ObjectBehaviorYawMode)
      → let (command, after) =
          command_from_behavior_velocity cfg c timestamp v ego selection yaw_offset mode in
        (after.flight ≡ c.flight)
        × (command.kind ≡ FlightCommandKind.velocity)
        × (command.velocity_local_mps ≡ v)
  unfolding command_from_behavior_velocity command_from_velocity
  command_from_behavior_velocity-flight cfg c timestamp v ego selection yaw_offset mode =
      ground arith
