-- ===== src/Trajectory/Controller/Contract.antt =====
-- A tick of the trajectory controller keeps the lifecycle contract.
use dedalus.Base.{true, refl, ◌≡◌, Double, IsIeee, arith}
use dedalus.Mission.{MissionLifecycleState, MissionTickInput, Ticked}
use dedalus.Flight.{start_mission, stamp}
use dedalus.Flight.Contract.{Obeys, sent, reported}
use dedalus.Flight.Phases.{
  IsFresh, start_mission-Obeys, start_mission-started, tick_prepare-Keeps, tick_land-Keeps,
  tick_complete-Keeps, tick_abort-Keeps, tick_idle-Keeps,
}
use dedalus.Trajectory.Controller.{
  TrajectoryMissionConfig, TrajectoryMissionController, tick, tick_state, tick_takeoff,
  tick_execute_mission, tick_go_home, advance_segment_if_needed,
}

module _ {R : Type 0} ⦃d : Double R⦄ where
  abbrev Keeps :
      MissionTickInput R
      → TrajectoryMissionController R
      → Ticked R (TrajectoryMissionController R)
      → Type 0
  Keeps i c t = Obeys i c.flight t.controller.flight (sent t.output) (reported t.output)

  module _ (cfg : TrajectoryMissionConfig R) (c : TrajectoryMissionController R)
      (i : MissionTickInput R) (started : c.flight.mission_started ≡ true) where
    tick_takeoff-Keeps :
        c.flight.state ≡ MissionLifecycleState.takeoff → Keeps i c (tick_takeoff cfg c i)
    unfolding tick_takeoff
    tick_takeoff-Keeps e = ground arith

    tick_execute_mission-Keeps :
        (dt : R)
        → c.flight.state ≡ MissionLifecycleState.execute_mission
        → Keeps i c (tick_execute_mission cfg dt c i)
    unfolding tick_execute_mission advance_segment_if_needed
    tick_execute_mission-Keeps dt e = ground arith

    tick_go_home-Keeps :
        c.flight.state ≡ MissionLifecycleState.go_home → Keeps i c (tick_go_home cfg c i)
    unfolding tick_go_home
    tick_go_home-Keeps e = ground arith

    tick_state-Keeps :
        (laws : IsIeee R) (dt : R) (s : MissionLifecycleState)
        → c.flight.state ≡ s
        → Keeps i c (tick_state cfg dt c i s)
    unfolding tick_state
    tick_state-Keeps laws dt MissionLifecycleState.prepare e =
        tick_prepare-Keeps cfg.flight i c.flight started e
    tick_state-Keeps laws dt MissionLifecycleState.takeoff e = tick_takeoff-Keeps e
    tick_state-Keeps laws dt MissionLifecycleState.execute_mission e =
        tick_execute_mission-Keeps dt e
    tick_state-Keeps laws dt MissionLifecycleState.go_home e = tick_go_home-Keeps e
    tick_state-Keeps laws dt MissionLifecycleState.land e =
        tick_land-Keeps laws cfg.flight i c.flight started e
    tick_state-Keeps laws dt MissionLifecycleState.complete e =
        tick_complete-Keeps cfg.flight i c.flight started e
    tick_state-Keeps laws dt MissionLifecycleState.abort e = tick_abort-Keeps i c.flight started e
    tick_state-Keeps laws dt MissionLifecycleState.idle e = tick_idle-Keeps i c.flight started e

  -- One tick of the trajectory controller from fresh or started members, for doubles that meet the laws
  -- of `IsIeee`: the lifecycle takes an edge of `can_follow`; the command sent is one that the state
  -- may send; the mission is started after it; a home pose and an abort recovery are kept; Takeoff and
  -- Land are sent only before their latch and set it; the state complete is entered only when the ego
  -- is down; the status complete is reported only in the state complete, with no abort recovery and
  -- with an ego that reports disarmed; the status abort only in the state abort.
  pub trajectory_tick-Obeys :
      (laws : IsIeee R) (cfg : TrajectoryMissionConfig R) (i : MissionTickInput R)
      (c : TrajectoryMissionController R)
      → IsFresh c.flight
      → Keeps i c (tick cfg i c)
  unfolding tick
  trajectory_tick-Obeys laws cfg i c fresh = start_mission-Obeys i c.flight _ _ _ fresh (
      tick_state-Keeps cfg (record c { flight = stamp i.now (start_mission i c.flight) }) i
        (start_mission-started i c.flight) laws _ _ refl)
