-- ===== src/Flight/Phases.antt =====
-- Every phase that the controllers share keeps the contract.
use dedalus.Base.{false, true, Option, ◌≡◌, Double, IsIeee, arith}
use dedalus.Mission.{FlightCommandKind, MissionLifecycleState, MissionTickInput, Status}
use dedalus.Flight.{
  Flight, FlightConfig, Reply, tick_prepare, tick_land, tick_complete, tick_abort, tick_idle,
  begin_abort_recovery, start_mission, stamp, height_of, land_height_m,
}
use dedalus.Flight.Contract.{Obeys, kind_of}

module _ {R : Type 0} ⦃d : Double R⦄ where
  abbrev pub Keeps : MissionTickInput R → Flight R → Reply R → Type 0
  Keeps i f r = Obeys i f r.flight (kind_of r.command) r.status

  pub tick_prepare-Keeps :
      (cfg : FlightConfig R) (i : MissionTickInput R) (f : Flight R)
      → f.mission_started ≡ true
      → f.state ≡ MissionLifecycleState.prepare
      → Keeps i f (tick_prepare cfg i f)
  unfolding tick_prepare begin_abort_recovery
  tick_prepare-Keeps cfg i f h e = ground arith

  pub tick_complete-Keeps :
      (cfg : FlightConfig R) (i : MissionTickInput R) (f : Flight R)
      → f.mission_started ≡ true
      → f.state ≡ MissionLifecycleState.complete
      → Keeps i f (tick_complete cfg i f)
  unfolding tick_complete
  tick_complete-Keeps cfg i f h e = ground arith

  pub tick_land-Keeps :
      (laws : IsIeee R) (cfg : FlightConfig R) (i : MissionTickInput R) (f : Flight R)
      → f.mission_started ≡ true
      → f.state ≡ MissionLifecycleState.land
      → Keeps i f (tick_land cfg i f)
  unfolding tick_land
  tick_land-Keeps laws cfg i f h e =
      ground (arith, laws.lt_of_le (height_of i.snapshot.ego) land_height_m)

  pub tick_abort-Keeps :
      (i : MissionTickInput R) (f : Flight R)
      → f.mission_started ≡ true
      → f.state ≡ MissionLifecycleState.abort
      → Keeps i f (tick_abort f)
  unfolding tick_abort
  tick_abort-Keeps i f h e = ground arith

  pub tick_idle-Keeps :
      (i : MissionTickInput R) (f : Flight R)
      → f.mission_started ≡ true
      → f.state ≡ MissionLifecycleState.idle
      → Keeps i f (tick_idle i f)
  unfolding tick_idle
  tick_idle-Keeps i f h e = ground arith

  -- A controller that has not started is idle and has sent nothing.
  pub record IsFresh (f : Flight R) : Type 0 where
    pub unstarted : f.mission_started ≡ false → f.state ≡ MissionLifecycleState.idle

  pub start_mission-started :
      (i : MissionTickInput R) (f : Flight R)
      → (stamp i.now (start_mission i f)).mission_started ≡ true
  unfolding start_mission
  start_mission-started i f = ground arith

  -- The contract of the phase that follows is the contract of the whole tick.
  pub start_mission-Obeys :
      (i : MissionTickInput R) (f g : Flight R) (m : Option FlightCommandKind) (s : Status)
      → IsFresh f
      → Obeys i (stamp i.now (start_mission i f)) g m s
      → Obeys i f g m s
  unfolding start_mission
  start_mission-Obeys i f g m s fresh o = ground arith
