-- ===== src/Behavior/Missions.antt =====
-- Whole missions of the object behaviour controller.
use dedalus.Base.{if◌then◌else◌, ◌+◌, ◌≤◌, ◌≡◌, ◌≢◌, true, List, Double, IsIeee, All, Any}
use dedalus.Mission.{FlightCommandKind, MissionLifecycleState, MissionTickInput}
use dedalus.Flight.Contract.{rank}
use dedalus.Flight.Phases.{IsFresh}
use dedalus.Flight.Runs.{
  Machine, Downs, NotComplete, Silent, abort-run, aborting-run, complete-Downs, count_sent,
  home-run, land_budget, outputs, rank-run, run, takeoff_budget,
}
use dedalus.Behavior.{GeometryPolicy, ObjectBehaviorMissionConfig, ObjectBehaviorMissionController}
use dedalus.Behavior.Tick.{tick}
use dedalus.Behavior.Tick.Contract.{object_behavior_tick-Obeys}

module _ {R : Type 0} ⦃d : Double R⦄ (policy : GeometryPolicy R) (laws : IsIeee R)
    (cfg : ObjectBehaviorMissionConfig R) where
  abbrev pub machine : Machine R
  machine = record {
    Controller = ObjectBehaviorMissionController R;
    flight = λ c. c.flight;
    tick = tick policy cfg;
    obeys = object_behavior_tick-Obeys policy laws cfg;
  }

  -- Over any sequence of ticks of the object behaviour controller that begins fresh or started, the
  -- lifecycle state never goes back in the order idle, prepare, takeoff, execute mission, go home,
  -- land, complete, abort.
  pub object_behavior_never_back :
      (is : List (MissionTickInput R)) (c : ObjectBehaviorMissionController R)
      → IsFresh c.flight
      → rank c.flight.state ≤ rank (run machine is c).flight.state
  object_behavior_never_back = rank-run machine

  -- Over any sequence of ticks, the object behaviour controller sends the Takeoff command at most
  -- once, and not at all when it was sent before; the same holds for the Land command.
  pub object_behavior_latched :
      (is : List (MissionTickInput R)) (c : ObjectBehaviorMissionController R)
      → IsFresh c.flight
      → (count_sent machine FlightCommandKind.takeoff is c
            + (if c.flight.takeoff_command_sent then 1 else 0)
          ≤ 1)
        × (count_sent machine FlightCommandKind.land is c
              + (if c.flight.land_command_sent then 1 else 0)
            ≤ 1)
  object_behavior_latched is c fresh =
      (takeoff_budget machine is c fresh, land_budget machine is c fresh)

  -- Once the object behaviour controller has aborted, it stays aborted and sends no flight command,
  -- whatever the ticks bring.
  pub object_behavior_abort-Silent :
      (is : List (MissionTickInput R)) (c : ObjectBehaviorMissionController R)
      → IsFresh c.flight
      → c.flight.state ≡ MissionLifecycleState.abort
      → ((run machine is c).flight.state ≡ MissionLifecycleState.abort)
        × All (Silent machine) (outputs machine is c)
  object_behavior_abort-Silent = abort-run machine

  -- A mission of the object behaviour controller that is recovering from an abort never reports
  -- the status "complete".
  pub object_behavior_abort-NotComplete :
      (is : List (MissionTickInput R)) (c : ObjectBehaviorMissionController R)
      → IsFresh c.flight
      → c.flight.aborting ≡ true
      → All (NotComplete machine) (outputs machine is c)
  object_behavior_abort-NotComplete = aborting-run machine

  -- The object behaviour controller reaches the state complete from another one
  -- only over a tick whose ego is disarmed or is not above 0.25 m.
  pub object_behavior_complete_down :
      (is : List (MissionTickInput R)) (c : ObjectBehaviorMissionController R)
      → IsFresh c.flight
      → c.flight.state ≢ MissionLifecycleState.complete
      → (run machine is c).flight.state ≡ MissionLifecycleState.complete
      → Any (Downs machine) is
  object_behavior_complete_down = complete-Downs machine

  -- The home pose that the object behaviour controller took at its start never changes.
  pub object_behavior_home_kept :
      (is : List (MissionTickInput R)) (c : ObjectBehaviorMissionController R)
      → IsFresh c.flight
      → c.flight.mission_started ≡ true
      → (run machine is c).flight.home_pose ≡ c.flight.home_pose
  object_behavior_home_kept = home-run machine
