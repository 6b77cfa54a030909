-- ===== src/Flight/Contract.antt =====
-- What both controllers promise of a tick, whatever their mission: which lifecycle edges there are,
-- which flight command is sent in which state, what is latched, and when a mission may end.
use dedalus.Base.{ℕ, Bool, true, false, not, ◌&&◌, Option, none, some, ◌≡◌, ◌≢◌, ◌⊎◌, Double}
use dedalus.Mission.{
  FlightCommandKind, MissionLifecycleState, VelocityCommand, EgoState, MissionTickInput,
  MissionTickOutput, Status,
}
use dedalus.Flight.{Flight, height_of, land_height_m}

abbrev can_follow_prepare : MissionLifecycleState → Bool
can_follow_prepare MissionLifecycleState.idle = false
can_follow_prepare MissionLifecycleState.execute_mission = false
can_follow_prepare _ = true

-- The edges of the lifecycle. A controller that has not started is `idle`.
abbrev pub can_follow : MissionLifecycleState → MissionLifecycleState → Bool
can_follow MissionLifecycleState.idle s = can_follow_prepare s
can_follow MissionLifecycleState.prepare s = can_follow_prepare s
can_follow MissionLifecycleState.takeoff MissionLifecycleState.takeoff = true
can_follow MissionLifecycleState.takeoff MissionLifecycleState.execute_mission = true
can_follow MissionLifecycleState.takeoff MissionLifecycleState.land = true
can_follow MissionLifecycleState.takeoff MissionLifecycleState.complete = true
can_follow MissionLifecycleState.execute_mission MissionLifecycleState.execute_mission = true
can_follow MissionLifecycleState.execute_mission MissionLifecycleState.go_home = true
can_follow MissionLifecycleState.go_home MissionLifecycleState.go_home = true
can_follow MissionLifecycleState.go_home MissionLifecycleState.land = true
can_follow MissionLifecycleState.land MissionLifecycleState.land = true
can_follow MissionLifecycleState.land MissionLifecycleState.complete = true
can_follow MissionLifecycleState.land MissionLifecycleState.abort = true
can_follow MissionLifecycleState.complete MissionLifecycleState.complete = true
can_follow MissionLifecycleState.complete MissionLifecycleState.abort = true
can_follow MissionLifecycleState.abort MissionLifecycleState.abort = true
can_follow _ _ = false

-- The flight commands that each state may send.
abbrev pub may_send : MissionLifecycleState → FlightCommandKind → Bool
may_send MissionLifecycleState.idle FlightCommandKind.arm = true
may_send MissionLifecycleState.prepare FlightCommandKind.arm = true
may_send MissionLifecycleState.takeoff FlightCommandKind.takeoff = true
may_send MissionLifecycleState.takeoff FlightCommandKind.velocity = true
may_send MissionLifecycleState.execute_mission FlightCommandKind.velocity = true
may_send MissionLifecycleState.go_home FlightCommandKind.velocity = true
may_send MissionLifecycleState.land FlightCommandKind.land = true
may_send MissionLifecycleState.complete FlightCommandKind.disarm = true
may_send _ _ = false

-- The lifecycle never moves back: every edge keeps or raises this number.
abbrev pub rank : MissionLifecycleState → ℕ
rank MissionLifecycleState.idle = 0
rank MissionLifecycleState.prepare = 1
rank MissionLifecycleState.takeoff = 2
rank MissionLifecycleState.execute_mission = 3
rank MissionLifecycleState.go_home = 4
rank MissionLifecycleState.land = 5
rank MissionLifecycleState.complete = 6
rank MissionLifecycleState.abort = 7

abbrev pub kind_of : {R : Type 0} → Option (VelocityCommand R) → Option FlightCommandKind
kind_of none = none
kind_of (some c) = some c.kind

-- The command and the status of a tick; a tick that throws has neither.
abbrev pub sent : {R : Type 0} → Option (MissionTickOutput R) → Option FlightCommandKind
sent none = none
sent (some o) = kind_of o.command

abbrev pub reported : {R : Type 0} → Option (MissionTickOutput R) → Status
reported none = Status.none_yet
reported (some o) = o.status

-- `m` sends nothing, or a command that `s` may send.
abbrev pub Allowed : MissionLifecycleState → Option FlightCommandKind → Type 0
Allowed s none = Unit
Allowed s (some k) = may_send s k ≡ true

module _ {R : Type 0} ⦃d : Double R⦄ where
  -- The ego reports that it is disarmed, or its height is not above 0.25 m.
  abbrev pub IsDown : EgoState R → Type 0
  IsDown ego =
      (ego.armed_valid && not ego.armed ≡ true) ⊎ (d.lt land_height_m (height_of ego) ≡ false)

  -- A tick takes `f` to `g`, sends the command `m` and reports the status `s`.
  pub record Obeys (i : MissionTickInput R) (f g : Flight R) (m : Option FlightCommandKind)
      (s : Status) : Type 0 where
    pub edge : can_follow f.state g.state ≡ true
    pub allowed : Allowed f.state m
    pub started : g.mission_started ≡ true
    pub home_kept : f.mission_started ≡ true → g.home_pose ≡ f.home_pose
    pub abort_kept : f.aborting ≡ true → g.aborting ≡ true
    pub takeoff_once : m ≡ some FlightCommandKind.takeoff → f.takeoff_command_sent ≡ false
    pub takeoff_latched :
        (m ≡ some FlightCommandKind.takeoff) ⊎ (f.takeoff_command_sent ≡ true)
        → g.takeoff_command_sent ≡ true
    pub land_once : m ≡ some FlightCommandKind.land → f.land_command_sent ≡ false
    pub land_latched :
        (m ≡ some FlightCommandKind.land) ⊎ (f.land_command_sent ≡ true)
        → g.land_command_sent ≡ true
    pub complete_down :
        f.state ≢ MissionLifecycleState.complete
        → g.state ≡ MissionLifecycleState.complete
        → IsDown i.snapshot.ego
    pub settles :
        s ≡ Status.complete
        → (g.state ≡ MissionLifecycleState.complete)
          × (g.aborting ≡ false)
          × (i.snapshot.ego.armed_valid ≡ true)
          × (i.snapshot.ego.armed ≡ false)
    pub aborts : s ≡ Status.abort → g.state ≡ MissionLifecycleState.abort
