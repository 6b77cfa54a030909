-- ===== src/Behavior/Tick/Contract.antt =====
-- A tick of the object behaviour controller keeps the lifecycle contract.
use dedalus.Base.{true, Option, none, some, refl, ◌∙◌, ◌≡◌, Double, nought, IsIeee, arith}
use dedalus.Mission.{MissionLifecycleState, MissionTickInput, MissionTickOutput, Ticked}
use dedalus.Flight.{Flight, start_mission, stamp, enter, height_of}
use dedalus.Flight.Contract.{Obeys, sent, reported, kind_of}
use dedalus.Flight.Phases.{
  IsFresh, start_mission-Obeys, start_mission-started, tick_prepare-Keeps, tick_land-Keeps,
  tick_complete-Keeps, tick_abort-Keeps, tick_idle-Keeps,
}
use dedalus.Behavior.{GeometryPolicy, ObjectBehaviorMissionConfig, ObjectBehaviorMissionController}
use dedalus.Behavior.Camera.{neutral_camera_pointing_command, emit_camera_pointing, emit-command}
use dedalus.Behavior.Yaw.{command_from_velocity-flight}
use dedalus.Behavior.Sequence.{reset_behavior_run-flight}
use dedalus.Behavior.Execute.Effect.{Flies, tick_execute_mission-Flies}
use dedalus.Behavior.GoHome.{tick_go_home, Returns, tick_go_home-Returns}
use dedalus.Behavior.Tick.{tick, tick_state, tick_takeoff, close_output}

module _ {R : Type 0} ⦃d : Double R⦄ where
  abbrev Keeps :
      MissionTickInput R
      → ObjectBehaviorMissionController R
      → Ticked R (ObjectBehaviorMissionController R)
      → Type 0
  Keeps i c t = Obeys i c.flight t.controller.flight (sent t.output) (reported t.output)

  closed-Obeys :
      (i : MissionTickInput R) (f g : Flight R) (s : MissionLifecycleState)
      (o : Option (MissionTickOutput R))
      → Obeys i f g (sent o) (reported o)
      → Obeys i f g (sent (close_output s o)) (reported (close_output s o))
  closed-Obeys i f g s none k = k
  closed-Obeys i f g s (some o) k = k

  Flies-Obeys :
      (i : MissionTickInput R) (c : ObjectBehaviorMissionController R)
      (t : Ticked R (ObjectBehaviorMissionController R))
      → c.flight.mission_started ≡ true
      → c.flight.state ≡ MissionLifecycleState.execute_mission
      → Flies i.now c.flight t
      → Keeps i c t
  Flies-Obeys i c t h e f = ground (arith, f.moves, f.commands, f.not_complete, f.not_abort)

  Returns-Obeys :
      (i : MissionTickInput R) (f g : Flight R) (o : MissionTickOutput R)
      → f.mission_started ≡ true
      → f.state ≡ MissionLifecycleState.go_home
      → Returns i.now f o g
      → Obeys i f g (kind_of o.command) o.status
  Returns-Obeys i f g o h e r = ground arith

  module _ (cfg : ObjectBehaviorMissionConfig R) (c : ObjectBehaviorMissionController R)
      (i : MissionTickInput R) (started : c.flight.mission_started ≡ true) where
    tick_takeoff-Keeps :
        (o : MissionTickOutput R)
        → o.command ≡ none
        → c.flight.state ≡ MissionLifecycleState.takeoff
        → Keeps i c (tick_takeoff cfg i (height_of i.snapshot.ego) c o)
    unfolding tick_takeoff
    tick_takeoff-Keeps o h e = ground (
      arith,
      reset_behavior_run-flight i.now
          (record c { flight = enter MissionLifecycleState.execute_mission i.now c.flight }),
      command_from_velocity-flight cfg c i.now
          (record { x = nought; y = nought; z = d.neg (d.abs cfg.takeoff_velocity_mps) }) nought,
    )

    module _ (policy : GeometryPolicy R) where
      tick_state-Keeps :
          (laws : IsIeee R) (o : MissionTickOutput R) (s : MissionLifecycleState)
          → o.command ≡ none
          → c.flight.state ≡ s
          → Keeps i c (tick_state policy cfg i c o s)
      unfolding tick_state
      tick_state-Keeps laws o MissionLifecycleState.prepare h e =
          tick_prepare-Keeps cfg.flight i c.flight started e
      tick_state-Keeps laws o MissionLifecycleState.takeoff h e =
          tick_takeoff-Keeps
            (emit_camera_pointing
              (neutral_camera_pointing_command cfg i.now cfg.camera_pointing_takeoff_mode) o)
            (emit-command _ o ∙ h) e
      tick_state-Keeps laws o MissionLifecycleState.execute_mission h e =
          Flies-Obeys i c _ started e (tick_execute_mission-Flies policy cfg i _ c o h)
      tick_state-Keeps laws o MissionLifecycleState.go_home h e =
          Returns-Obeys i c.flight _ (tick_go_home cfg i (height_of i.snapshot.ego) c o).0 started e
            (tick_go_home-Returns cfg i _ c o h)
      tick_state-Keeps laws o MissionLifecycleState.land h e =
          tick_land-Keeps laws cfg.flight i c.flight started e
      tick_state-Keeps laws o MissionLifecycleState.complete h e =
          tick_complete-Keeps cfg.flight i c.flight started e
      tick_state-Keeps laws o MissionLifecycleState.abort h e =
          tick_abort-Keeps i c.flight started e
      tick_state-Keeps laws o MissionLifecycleState.idle h e = tick_idle-Keeps i c.flight started e

  -- One tick of the object behaviour controller from fresh or started members, for doubles that meet the laws
  -- of `IsIeee`: the lifecycle takes an edge of `can_follow`; the command sent is one that the state
  -- may send; the mission is started after it; a home pose and an abort recovery are kept; Takeoff and
  -- Land are sent only before their latch and set it; the state complete is entered only when the ego
  -- is down; the status complete is reported only in the state complete, with no abort recovery and
  -- with an ego that reports disarmed; the status abort only in the state abort.
  pub object_behavior_tick-Obeys :
      (policy : GeometryPolicy R) (laws : IsIeee R) (cfg : ObjectBehaviorMissionConfig R)
      (i : MissionTickInput R) (c : ObjectBehaviorMissionController R)
      → IsFresh c.flight
      → Keeps i c (tick policy cfg i c)
  unfolding tick
  object_behavior_tick-Obeys policy laws cfg i c fresh =
      start_mission-Obeys i c.flight _ _ _ fresh (
        closed-Obeys i (stamp i.now (start_mission i c.flight)) _ _ _ (
          tick_state-Keeps cfg (record c { flight = stamp i.now (start_mission i c.flight) }) i
            (start_mission-started i c.flight) policy laws _ _ refl refl))
