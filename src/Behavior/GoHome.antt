-- ===== src/Behavior/GoHome.antt =====
-- The flight home: `tick_go_home` of src/behavior/object_behavior_mission_controller_tick_execute.cpp
-- and `go_home_velocity` of src/behavior/object_behavior_mission_controller.cpp.
use dedalus.Base.{
  ℤ, pos, ◌-ℤ◌, ltb_ℤ, eqb_ℤ, Bool, not, ◌&&◌, ◌||◌, none, some, [], ◌∷◌, ◌++◌, Double, nought,
  min_double, max_double, if◌then◌else◌, ◌≡◌, ◌≢◌, ◌⊎◌, refl, ◌∙◌, arith,
}
use dedalus.Mission.{
  Vec3, EgoState, ControllerEventKind, MissionLifecycleState, MissionTickInput, MissionTickOutput,
  VelocityCommand, Status, FlightCommandKind,
}
use dedalus.Flight.{Flight, zero_vec, enter}
use dedalus.Flight.Contract.{kind_of}
use dedalus.Behavior.{ObjectBehaviorMissionConfig, ObjectBehaviorMissionController}
use dedalus.Behavior.Geometry.{norm_xy, enforce_takeoff_height_floor}
use dedalus.Behavior.Camera.{
  camera_pointing_command_to_point, neutral_camera_pointing_command, emit_camera_pointing,
  emit-command,
}
use dedalus.Behavior.Yaw.{command_from_velocity, command_from_velocity-flight}

module _ {R : Type 0} ⦃d : Double R⦄ where
  open d use {lt, le, add, sub, mul, div, of_int, decimal, sqrt}

  velocity_toward_xy : Vec3 R → Vec3 R → R → Vec3 R
  velocity_toward_xy from to speed =
      let delta : Vec3 R = record { x = sub to.x from.x; y = sub to.y from.y; z = nought } in
      let distance = norm_xy delta in
      if le distance (decimal (pos 5) 1) || le speed nought then zero_vec else record {
        x = mul (div delta.x distance) speed;
        y = mul (div delta.y distance) speed;
        z = nought;
      }

  go_home_velocity : Flight R → EgoState R → R → Vec3 R
  unfolding velocity_toward_xy
  go_home_velocity f ego speed =
      if not f.home_initialized
      then zero_vec
      else velocity_toward_xy ego.local_T_body.position f.home_pose.position speed

  -- `dist_xy_m`.
  pub home_distance : Flight R → EgoState R → R
  home_distance f ego =
      let here = ego.local_T_body.position in
      let home = f.home_pose.position in
      let dx = if f.home_initialized then sub home.x here.x else nought in
      let dy = if f.home_initialized then sub home.y here.y else nought in
      sqrt (add (mul dx dx) (mul dy dy))

  -- The estimate of the interval between frames, after a frame stamped `now` (nanoseconds).
  pub frame_interval : ObjectBehaviorMissionController R → ℤ → R
  frame_interval c now =
      let observed = div (of_int (now -ℤ c.last_ego_ts_go_home)) (of_int (pos 1_000_000_000)) in
      let estimate = c.go_home_estimated_frame_interval_s in
      if ltb_ℤ (pos 0) now
        && ltb_ℤ (pos 0) c.last_ego_ts_go_home
        && not (eqb_ℤ now c.last_ego_ts_go_home)
        && lt nought observed
        && lt observed (of_int (pos 30))
      then (if lt nought estimate
          then add (mul (decimal (pos 3) 1) observed) (mul (decimal (pos 7) 1) estimate)
          else observed)
      else estimate

  pub note_frame : ObjectBehaviorMissionController R → ℤ → ObjectBehaviorMissionController R
  unfolding frame_interval
  note_frame c now = record c {
    go_home_estimated_frame_interval_s = frame_interval c now;
    last_ego_ts_go_home = if ltb_ℤ (pos 0) now then now else c.last_ego_ts_go_home;
  }

  -- The speed that covers at most the distance in one frame, and at least 0.05 m/s.
  pub safe_speed : ObjectBehaviorMissionConfig R → R → R → R
  safe_speed cfg interval distance =
      if lt nought interval && lt nought distance
      then min_double cfg.go_home_velocity_mps
          (max_double (decimal (pos 5) 2) (div distance interval))
      else cfg.go_home_velocity_mps

  pub effective_arrival_m : R → R
  effective_arrival_m interval =
      if lt (decimal (pos 5) 1) interval then of_int (pos 5) else decimal (pos 5) 1

  point_home :
      ObjectBehaviorMissionConfig R
      → Flight R
      → MissionTickInput R
      → MissionTickOutput R
      → MissionTickOutput R
  point_home cfg f i o =
      emit_camera_pointing
        (if f.home_initialized
          then camera_pointing_command_to_point cfg i.now i.snapshot.ego f.home_pose.position
              cfg.camera_pointing_go_home_mode
          else neutral_camera_pointing_command cfg i.now cfg.camera_pointing_complete_mode)
        o

  -- The `if` that ends the function: home is reached, or the flight goes on.
  arrive_or_fly :
      Bool
      → ℤ
      → ObjectBehaviorMissionController R
      → ObjectBehaviorMissionController R
      → VelocityCommand R
      → MissionTickOutput R
      → MissionTickOutput R × ObjectBehaviorMissionController R
  arrive_or_fly arrived now c flown command o =
      if arrived
      then (
        record o {
          status =
              if c.flight.aborting then Status.abort_recovery_home_reached else Status.home_reached;
        },
        record c { flight = enter MissionLifecycleState.land now c.flight },
      )
      else (
        record o {
          command = some command;
          status = if c.flight.aborting then Status.abort_recovery_go_home else Status.go_home;
        },
        flown,
      )

  pub tick_go_home :
      ObjectBehaviorMissionConfig R
      → MissionTickInput R
      → R
      → ObjectBehaviorMissionController R
      → MissionTickOutput R
      → MissionTickOutput R × ObjectBehaviorMissionController R
  unfolding go_home_velocity point_home arrive_or_fly
  tick_go_home cfg i height c o =
      let ego = i.snapshot.ego in
      let max_vertical =
        max_double (decimal (pos 1) 1) cfg.behavior_spec.behavior.max_vertical_speed_mps in
      let distance = home_distance c.flight ego in
      let framed = note_frame c ego.timestamp in
      let interval = framed.go_home_estimated_frame_interval_s in
      let raw = go_home_velocity c.flight ego (safe_speed cfg interval distance) in
      let pointed = point_home cfg c.flight i o in
      let sampled = record pointed {
        events = pointed.events ++ (ControllerEventKind.behavior_tick_sample ∷ []);
      } in
      let velocity = enforce_takeoff_height_floor raw height cfg.takeoff_height_m max_vertical in
      let (command, flown) = command_from_velocity cfg framed i.now velocity cfg.yaw_offset_rad in
      arrive_or_fly (le distance (effective_arrival_m interval) && le cfg.takeoff_height_m height)
        i.now framed flown command sampled

  note_frame-flight :
      (c : ObjectBehaviorMissionController R) (now : ℤ) → (note_frame c now).flight ≡ c.flight
  unfolding note_frame
  note_frame-flight c now = refl

  point_home-command :
      (cfg : ObjectBehaviorMissionConfig R) (f : Flight R) (i : MissionTickInput R)
      (o : MissionTickOutput R)
      → (point_home cfg f i o).command ≡ o.command
  unfolding point_home
  point_home-command cfg f i o = emit-command _ o

  -- The two branches of `tick_go_home`.
  abbrev pub Returns : ℤ → Flight R → MissionTickOutput R → Flight R → Type 0
  Returns now f o g =
      ((g ≡ f) ⊎ (g ≡ enter MissionLifecycleState.land now f))
      × ((kind_of o.command ≡ none) ⊎ (kind_of o.command ≡ some FlightCommandKind.velocity))
      × (o.status ≢ Status.complete)
      × (o.status ≢ Status.abort)

  arrive_or_fly-Returns :
      (arrived : Bool) (now : ℤ) (f : Flight R) (c flown : ObjectBehaviorMissionController R)
      (command : VelocityCommand R) (o : MissionTickOutput R)
      → o.command ≡ none
      → c.flight ≡ f
      → flown.flight ≡ c.flight
      → command.kind ≡ FlightCommandKind.velocity
      → Returns now f
          (arrive_or_fly arrived now c flown command o).0
          (arrive_or_fly arrived now c flown command o).1.flight
  unfolding arrive_or_fly
  arrive_or_fly-Returns arrived now f c flown command o e h k v = ground arith

  pub tick_go_home-Returns :
      (cfg : ObjectBehaviorMissionConfig R) (i : MissionTickInput R) (height : R)
      (c : ObjectBehaviorMissionController R) (o : MissionTickOutput R)
      → o.command ≡ none
      → Returns i.now c.flight
          (tick_go_home cfg i height c o).0
          (tick_go_home cfg i height c o).1.flight
  unfolding tick_go_home
  tick_go_home-Returns cfg i height c o e =
      let framed = note_frame c i.snapshot.ego.timestamp in
      let kept = command_from_velocity-flight cfg framed i.now _ cfg.yaw_offset_rad in
      let pointed = point_home cfg c.flight i o in
      arrive_or_fly-Returns _ i.now c.flight framed _ _
        (record pointed {
          events = pointed.events ++ (ControllerEventKind.behavior_tick_sample ∷ []);
        })
        (point_home-command cfg c.flight i o ∙ e) (note_frame-flight c i.snapshot.ego.timestamp)
        kept.0 kept.1
