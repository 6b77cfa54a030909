-- ===== src/Examples/Missions.antt =====
-- Concrete missions.
use dedalus.Base.{◌+◌, ℤ, pos, ◌≤◌, ◌≡◌, ◌≢◌, refl, arith, All, Any, List, [], ◌∷◌, true, false}
use dedalus.Base.Fixed.{fixed, Fixed-IsIeee, sqrt_fixed}
use dedalus.Mission.{FlightCommandKind, MissionLifecycleState, MissionTickInput}
use dedalus.Flight.{
  Flight, initial_flight, elapsed_at_least, seconds_between, start_mission, tick_land, tick_prepare,
}
use dedalus.Flight.Contract.{Obeys, rank, reported, sent}
use dedalus.Flight.Phases.{IsFresh}
use dedalus.Flight.Runs.{Downs, NotComplete, Silent, count_sent, outputs, run}
use dedalus.Trajectory.Controller
use dedalus.Trajectory.Controller.{TrajectoryMissionController}
use dedalus.Trajectory.Controller.Contract.{trajectory_tick-Obeys}
use dedalus.Trajectory.Missions as Routes
use dedalus.Behavior.{ObjectBehaviorMissionController}
use dedalus.Behavior.Tick
use dedalus.Behavior.Tick.Contract.{object_behavior_tick-Obeys}
use dedalus.Behavior.Missions as Hunts
use dedalus.Examples.{behavior_config, east, initial-IsFresh, input, sortie, trajectory_config}

abbrev route : TrajectoryMissionController ℤ
route = Controller.initial_controller

abbrev hunt : ObjectBehaviorMissionController ℤ
hunt = Tick.initial_controller

-- A flight in the state `s`, recovering from an abort.
abbrev in_state : MissionLifecycleState → Flight ℤ
in_state s = record initial_flight {
  state = s;
  mission_started = true;
  home_initialized = true;
  aborting = true;
  takeoff_command_sent = true;
}

in_state-IsFresh : (s : MissionLifecycleState) → IsFresh (in_state s)
in_state-IsFresh s = ground arith

sortie_ends :
    (run (Routes.machine Fixed-IsIeee trajectory_config) sortie route).flight.state
    ≡ MissionLifecycleState.complete
unfolding run Controller.tick Controller.tick_state Controller.tick_takeoff
    Controller.tick_execute_mission Controller.tick_go_home tick_land tick_prepare start_mission
    seconds_between elapsed_at_least sqrt_fixed
sortie_ends = refl

abbrev cut_short : List (MissionTickInput ℤ)
cut_short =
    input 1 false (pos 0) false ∷ input 2 true (pos 0) false ∷ input 3 true (pos 0) true ∷ []

cut_short_ends :
    (run (Hunts.machine east Fixed-IsIeee behavior_config) cut_short hunt).flight.state
    ≡ MissionLifecycleState.complete
unfolding run Tick.tick Tick.tick_state Tick.tick_takeoff tick_prepare start_mission seconds_between
    elapsed_at_least
cut_short_ends = refl

idle_not_complete : MissionLifecycleState.idle ≢ MissionLifecycleState.complete
idle_not_complete = ground arith

abbrev hunt_in : MissionLifecycleState → ObjectBehaviorMissionController ℤ
hunt_in s = record hunt { flight = in_state s }

object_behavior_tick_example :
    Obeys
      (input 2 true (pos 0) false)
      hunt.flight
      (Tick.tick east behavior_config (input 2 true (pos 0) false) hunt).controller.flight
      (sent (Tick.tick east behavior_config (input 2 true (pos 0) false) hunt).output)
      (reported (Tick.tick east behavior_config (input 2 true (pos 0) false) hunt).output)
object_behavior_tick_example =
    object_behavior_tick-Obeys east Fixed-IsIeee behavior_config (input 2 true (pos 0) false) hunt
      initial-IsFresh

object_behavior_never_back_example :
    rank hunt.flight.state
    ≤ rank (run (Hunts.machine east Fixed-IsIeee behavior_config) sortie hunt).flight.state
object_behavior_never_back_example =
    Hunts.object_behavior_never_back east Fixed-IsIeee behavior_config sortie hunt initial-IsFresh

object_behavior_latched_example :
    (count_sent
          (Hunts.machine east Fixed-IsIeee behavior_config)
          FlightCommandKind.takeoff
          sortie
          hunt
        + 0
      ≤ 1)
    × (count_sent
            (Hunts.machine east Fixed-IsIeee behavior_config)
            FlightCommandKind.land
            sortie
            hunt
          + 0
        ≤ 1)
object_behavior_latched_example =
    Hunts.object_behavior_latched east Fixed-IsIeee behavior_config sortie hunt initial-IsFresh

object_behavior_abort-Silent_example :
    ((run
        (Hunts.machine east Fixed-IsIeee behavior_config)
        sortie
        (hunt_in MissionLifecycleState.abort)).flight.state
      ≡ MissionLifecycleState.abort)
    × All (Silent (Hunts.machine east Fixed-IsIeee behavior_config)) (
        outputs
          (Hunts.machine east Fixed-IsIeee behavior_config)
          sortie
          (hunt_in MissionLifecycleState.abort))
object_behavior_abort-Silent_example =
    Hunts.object_behavior_abort-Silent east Fixed-IsIeee behavior_config sortie
      (hunt_in MissionLifecycleState.abort) (in_state-IsFresh MissionLifecycleState.abort) refl

object_behavior_abort-NotComplete_example :
    All (NotComplete (Hunts.machine east Fixed-IsIeee behavior_config)) (
      outputs
        (Hunts.machine east Fixed-IsIeee behavior_config)
        sortie
        (hunt_in MissionLifecycleState.go_home))
object_behavior_abort-NotComplete_example =
    Hunts.object_behavior_abort-NotComplete east Fixed-IsIeee behavior_config sortie
      (hunt_in MissionLifecycleState.go_home) (in_state-IsFresh MissionLifecycleState.go_home) refl

object_behavior_complete_down_example :
    Any (Downs (Hunts.machine east Fixed-IsIeee behavior_config)) cut_short
object_behavior_complete_down_example =
    Hunts.object_behavior_complete_down east Fixed-IsIeee behavior_config cut_short hunt
      initial-IsFresh idle_not_complete cut_short_ends

abbrev route_in : MissionLifecycleState → TrajectoryMissionController ℤ
route_in s = record route { flight = in_state s }

trajectory_tick_example :
    Obeys
      (input 2 true (pos 0) false)
      route.flight
      (Controller.tick trajectory_config (input 2 true (pos 0) false) route).controller.flight
      (sent (Controller.tick trajectory_config (input 2 true (pos 0) false) route).output)
      (reported (Controller.tick trajectory_config (input 2 true (pos 0) false) route).output)
trajectory_tick_example =
    trajectory_tick-Obeys Fixed-IsIeee trajectory_config (input 2 true (pos 0) false) route
      initial-IsFresh

trajectory_never_back_example :
    rank route.flight.state
    ≤ rank (run (Routes.machine Fixed-IsIeee trajectory_config) sortie route).flight.state
trajectory_never_back_example =
    Routes.trajectory_never_back Fixed-IsIeee trajectory_config sortie route initial-IsFresh

trajectory_latched_example :
    (count_sent
          (Routes.machine Fixed-IsIeee trajectory_config)
          FlightCommandKind.takeoff
          sortie
          route
        + 0
      ≤ 1)
    × (count_sent
            (Routes.machine Fixed-IsIeee trajectory_config)
            FlightCommandKind.land
            sortie
            route
          + 0
        ≤ 1)
trajectory_latched_example =
    Routes.trajectory_latched Fixed-IsIeee trajectory_config sortie route initial-IsFresh

trajectory_abort-Silent_example :
    ((run
        (Routes.machine Fixed-IsIeee trajectory_config)
        sortie
        (route_in MissionLifecycleState.abort)).flight.state
      ≡ MissionLifecycleState.abort)
    × All (Silent (Routes.machine Fixed-IsIeee trajectory_config)) (
        outputs
          (Routes.machine Fixed-IsIeee trajectory_config)
          sortie
          (route_in MissionLifecycleState.abort))
trajectory_abort-Silent_example =
    Routes.trajectory_abort-Silent Fixed-IsIeee trajectory_config sortie
      (route_in MissionLifecycleState.abort) (in_state-IsFresh MissionLifecycleState.abort) refl

trajectory_abort-NotComplete_example :
    All (NotComplete (Routes.machine Fixed-IsIeee trajectory_config)) (
      outputs
        (Routes.machine Fixed-IsIeee trajectory_config)
        sortie
        (route_in MissionLifecycleState.go_home))
trajectory_abort-NotComplete_example =
    Routes.trajectory_abort-NotComplete Fixed-IsIeee trajectory_config sortie
      (route_in MissionLifecycleState.go_home) (in_state-IsFresh MissionLifecycleState.go_home) refl

trajectory_complete_down_example :
    Any (Downs (Routes.machine Fixed-IsIeee trajectory_config)) sortie
trajectory_complete_down_example =
    Routes.trajectory_complete_down Fixed-IsIeee trajectory_config sortie route initial-IsFresh
      idle_not_complete sortie_ends
