-- ===== src/Trajectory/Missions.antt =====
-- Whole missions of the trajectory controller.
use dedalus.Base.{if◌then◌else◌, ◌+◌, ◌≤◌, ◌≡◌, ◌≢◌, true, List, Double, IsIeee, All, Any}
use dedalus.Mission.{FlightCommandKind, MissionLifecycleState, MissionTickInput}
use dedalus.Flight.Contract.{rank}
use dedalus.Flight.Phases.{IsFresh}
use dedalus.Flight.Runs.{
  Machine, Downs, NotComplete, Silent, abort-run, aborting-run, complete-Downs, count_sent,
  home-run, land_budget, outputs, rank-run, run, takeoff_budget,
}
use dedalus.Trajectory.Controller.{TrajectoryMissionConfig, TrajectoryMissionController, tick}
use dedalus.Trajectory.Controller.Contract.{trajectory_tick-Obeys}

module _ {R : Type 0} ⦃d : Double R⦄ (laws : IsIeee R) (cfg : TrajectoryMissionConfig R) where
  abbrev pub machine : Machine R
  machine = record {
    Controller = TrajectoryMissionController R;
    flight = λ c. c.flight;
    tick = tick cfg;
    obeys = trajectory_tick-Obeys laws cfg;
  }

  -- Over any sequence of ticks of the trajectory controller that begins fresh or started, the
  -- lifecycle state never goes back in the order idle, prepare, takeoff, execute mission, go home,
  -- land, complete, abort.
  pub trajectory_never_back :
      (is : List (MissionTickInput R)) (c : TrajectoryMissionController R)
      → IsFresh c.flight
      → rank c.flight.state ≤ rank (run machine is c).flight.state
  trajectory_never_back = rank-run machine

  -- Over any sequence of ticks, the trajectory controller sends the Takeoff command at most
  -- once, and not at all when it was sent before; the same holds for the Land command.
  pub trajectory_latched :
      (is : List (MissionTickInput R)) (c : TrajectoryMissionController R)
      → IsFresh c.flight
      → (count_sent machine FlightCommandKind.takeoff is c
            + (if c.flight.takeoff_command_sent then 1 else 0)
          ≤ 1)
        × (count_sent machine FlightCommandKind.land is c
              + (if c.flight.land_command_sent then 1 else 0)
            ≤ 1)
  trajectory_latched is c fresh =
      (takeoff_budget machine is c fresh, land_budget machine is c fresh)

  -- Once the trajectory controller has aborted, it stays aborted and sends no flight command,
  -- whatever the ticks bring.
  pub trajectory_abort-Silent :
      (is : List (MissionTickInput R)) (c : TrajectoryMissionController R)
      → IsFresh c.flight
      → c.flight.state ≡ MissionLifecycleState.abort
      → ((run machine is c).flight.state ≡ MissionLifecycleState.abort)
        × All (Silent machine) (outputs machine is c)
  trajectory_abort-Silent = abort-run machine

  -- A mission of the trajectory controller that is recovering from an abort never reports
  -- the status "complete".
  pub trajectory_abort-NotComplete :
      (is : List (MissionTickInput R)) (c : TrajectoryMissionController R)
      → IsFresh c.flight
      → c.flight.aborting ≡ true
      → All (NotComplete machine) (outputs machine is c)
  trajectory_abort-NotComplete = aborting-run machine

  -- The trajectory controller reaches the state complete from another one
  -- only over a tick whose ego is disarmed or is not above 0.25 m.
  pub trajectory_complete_down :
      (is : List (MissionTickInput R)) (c : TrajectoryMissionController R)
      → IsFresh c.flight
      → c.flight.state ≢ MissionLifecycleState.complete
      → (run machine is c).flight.state ≡ MissionLifecycleState.complete
      → Any (Downs machine) is
  trajectory_complete_down = complete-Downs machine

  -- The home pose that the trajectory controller took at its start never changes.
  pub trajectory_home_kept :
      (is : List (MissionTickInput R)) (c : TrajectoryMissionController R)
      → IsFresh c.flight
      → c.flight.mission_started ≡ true
      → (run machine is c).flight.home_pose ≡ c.flight.home_pose
  trajectory_home_kept = home-run machine
