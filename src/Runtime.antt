-- ===== src/Runtime.antt =====
-- The mission runtime: src/behavior/mission_runtime.cpp, src/behavior/mission_runtime_dispatch.cpp and
-- include/dedalus/behavior/mission_runtime.hpp. A runtime runs any controller over what the outside
-- gives each tick. Counters are unbounded here; at one step per tick they do not wrap in the source.
pub mod Tracker
pub mod Tick
pub mod Loop
pub mod Dispatch
pub mod Settles
pub mod Overruns
use dedalus.Base.{
  ℤ, pos, eqb_ℤ, ltb_ℤ, ℕ, ◌+◌, ◌-◌, ◌%◌, ltb, leb, ◌==◌, Bool, true, false, not, ◌&&◌, ◌||◌,
  Option, none, some, List, [], ◌∷◌, ◌++◌, map, String, if◌then◌else◌,
}
use dedalus.Mission.{
  CameraPointingCommand, ControllerEventKind, FlightCommandKind, FlightCommandResult,
  FlightControlState, MissionLifecycleState, MissionTickInput, MissionTickOutput, Status, Ticked,
  VelocityCommand, WorldSnapshot,
}
use dedalus.Runtime.Tracker.{apply_to_snapshot, on_command_dispatched, on_command_failed}

-- The numbers that are not positive, which switch a check off, are 0.
pub record MissionRuntimeConfig : Type 0 where
  pub verbosity : ℕ
  pub max_consecutive_inflight_overruns : ℕ
  pub stale_snapshot_warn_ticks : ℕ

pub record CameraPointingResult : Type 0 where
  pub success : Bool
  pub status : String

-- The calls of `write_event`, without the text of their other fields; the first number is the tick.
pub data RuntimeEvent : Type 0 where
  runtime_start : RuntimeEvent
  runtime_stop : ℕ → MissionLifecycleState → Bool → RuntimeEvent
  finish_requested : ℕ → MissionLifecycleState → RuntimeEvent
  runtime_error tick_overrun trajectory_safety : ℕ → RuntimeEvent
  inflight_overrun_abort snapshot_stale : ℕ → ℕ → RuntimeEvent
  state_transition : ℕ → MissionLifecycleState → MissionLifecycleState → Status → RuntimeEvent
  controller_event : ℕ → ControllerEventKind → RuntimeEvent
  command_dispatch command_exception : ℕ → FlightCommandKind → RuntimeEvent
  command_result : ℕ → FlightCommandKind → Bool → RuntimeEvent
  camera_pointing_dispatch camera_pointing_exception : ℕ → RuntimeEvent
  camera_pointing_result : ℕ → Bool → RuntimeEvent

-- A sink's `send` returns a result or throws an exception with its text.
pub data SinkReply : Type 0 where
  returned : FlightCommandResult → SinkReply
  threw : String → SinkReply

pub data PointingReply : Type 0 where
  returned : CameraPointingResult → PointingReply
  threw : String → PointingReply

-- What the outside gives one tick: the latest snapshot, the clock, the sinks, the time of a `send`.
-- `handoff` is `camera_pointing_handoff_`, where one is set; it answers false when it throws.
pub record Outside (R : Type 0) : Type 0 where
  pub latest : Option (WorldSnapshot R)
  pub clock : ℤ
  pub send : VelocityCommand R → SinkReply
  pub send_us : ℕ
  pub handoff : Option (CameraPointingCommand R → Bool)
  pub point : CameraPointingCommand R → PointingReply

-- The members, with the events written and the commands passed to the two sinks and to the handoff,
-- in order.
pub record MissionRuntime (R : Type 0) (C : Type 0) : Type 0 where
  pub controller : C
  pub running : Bool
  pub finish_requested : Bool
  pub terminal_settled : Bool
  pub loop_failed : Bool
  pub tick_count : ℕ
  pub tick_command_wait_us : ℕ
  pub last_state : MissionLifecycleState
  pub tracker : FlightControlState
  pub last_command_result : Option FlightCommandResult
  pub last_camera_pointing_result : Option CameraPointingResult
  pub consecutive_inflight_overruns : ℕ
  pub last_snapshot_ts_ns : ℤ
  pub consecutive_stale_ticks : ℕ
  pub stale_cr_pending : Bool
  pub events : List RuntimeEvent
  pub sent : List (VelocityCommand R)
  pub handed : List (CameraPointingCommand R)
  pub pointed : List (CameraPointingCommand R)

-- The value of `tick_once`, `none` for an exception.
pub record Ran (R : Type 0) (C : Type 0) : Type 0 where
  pub value : Option Bool
  pub runtime : MissionRuntime R C

abbrev state_number : MissionLifecycleState → ℕ
state_number MissionLifecycleState.idle = 0
state_number MissionLifecycleState.prepare = 1
state_number MissionLifecycleState.takeoff = 2
state_number MissionLifecycleState.execute_mission = 3
state_number MissionLifecycleState.go_home = 4
state_number MissionLifecycleState.land = 5
state_number MissionLifecycleState.complete = 6
state_number MissionLifecycleState.abort = 7

abbrev pub same_state : MissionLifecycleState → MissionLifecycleState → Bool
same_state a b = state_number a == state_number b

abbrev settled_status : MissionLifecycleState → Status → Bool
settled_status MissionLifecycleState.complete Status.complete = true
settled_status MissionLifecycleState.abort Status.abort = true
settled_status _ _ = false

abbrev pub output_is_terminal_settled : {R : Type 0} → MissionTickOutput R → Bool
output_is_terminal_settled o = settled_status o.state o.status

abbrev has : {A : Type 0} → Option A → Bool
has none = false
has (some a) = true

unfoldable pub pointing_result : PointingReply → CameraPointingResult
pointing_result (PointingReply.returned result) = result
pointing_result (PointingReply.threw what) = record { success = false; status = what }

abbrev pointing_threw : PointingReply → Bool
pointing_threw (PointingReply.returned result) = false
pointing_threw (PointingReply.threw what) = true

-- The result of a `send`, and what the tracker makes of it.
unfoldable pub command_outcome :
    SinkReply
    → FlightCommandKind
    → ℤ
    → FlightControlState
    → FlightCommandResult × FlightControlState
command_outcome (SinkReply.returned result) kind now s = (
  result,
  if result.success
      then on_command_dispatched kind now result.status s
      else on_command_failed kind result.status s,
)
command_outcome (SinkReply.threw what) kind now s =
    (record { kind = kind; success = false; status = what }, on_command_failed kind what s)

abbrev sink_threw : SinkReply → Bool
sink_threw (SinkReply.returned result) = false
sink_threw (SinkReply.threw what) = true

module _ {R : Type 0} {C : Type 0} where
  abbrev pub write_event : RuntimeEvent → MissionRuntime R C → MissionRuntime R C
  write_event e r = record r { events = r.events ++ (e ∷ []) }

  abbrev pub write_if : Bool → RuntimeEvent → MissionRuntime R C → MissionRuntime R C
  write_if b e r = if b then write_event e r else r

  -- The stale-snapshot detection; `ts` is not 0 where the unsigned number is positive.
  unfoldable pub note_snapshot : MissionRuntimeConfig → ℤ → MissionRuntime R C → MissionRuntime R C
  note_snapshot cfg ts r =
      if not (eqb_ℤ ts (pos 0)) && eqb_ℤ ts r.last_snapshot_ts_ns
      then (let count = r.consecutive_stale_ticks + 1 in
          let counted = record r { consecutive_stale_ticks = count } in
          if ltb 0 cfg.stale_snapshot_warn_ticks
            && leb cfg.stale_snapshot_warn_ticks count
            && count % cfg.stale_snapshot_warn_ticks == 0
          then write_event (RuntimeEvent.snapshot_stale r.tick_count count)
              (record counted { stale_cr_pending = true })
          else counted)
      else record r {
        stale_cr_pending = r.stale_cr_pending && not (ltb 0 r.consecutive_stale_ticks);
        consecutive_stale_ticks = 0;
        last_snapshot_ts_ns = ts;
      }

  unfoldable pub tick_input : Outside R → WorldSnapshot R → MissionRuntime R C → MissionTickInput R
  tick_input w snapshot r = record {
    now = if ltb_ℤ (pos 0) snapshot.timestamp then snapshot.timestamp else w.clock;
    snapshot = (apply_to_snapshot snapshot r.tracker).0;
    last_command_result = r.last_command_result;
    finish_requested = r.finish_requested;
  }

  -- The members and the events of an output, before its commands are dispatched.
  unfoldable pub note_output :
      MissionRuntimeConfig
      → MissionTickInput R
      → MissionTickOutput R
      → MissionRuntime R C
      → MissionRuntime R C
  note_output cfg i o r =
      let count = r.tick_count + 1 in
      let changed = not (same_state r.last_state o.state) in
      let detailed = leb 3 cfg.verbosity && (leb count 3 || has o.command) in
      let counted = record r {
        last_state = o.state;
        terminal_settled = r.terminal_settled || output_is_terminal_settled o;
        tick_count = count;
      } in
      let changing =
        write_if changed (RuntimeEvent.state_transition count r.last_state o.state o.status)
          counted in
      let told = record changing {
        events = changing.events ++ map (RuntimeEvent.controller_event count) o.events;
      } in
      write_if
        (i.snapshot.has_trajectory_safety && (changed || detailed || i.snapshot.trajectory_blocked))
        (RuntimeEvent.trajectory_safety count) told

  -- The call of the sink with what follows it.
  unfoldable pub point_camera :
      Outside R → CameraPointingCommand R → MissionRuntime R C → MissionRuntime R C
  unfolding pointing_result
  point_camera w command r =
      let reply = w.point command in
      let result = pointing_result reply in
      let tried =
        write_if (pointing_threw reply) (RuntimeEvent.camera_pointing_exception r.tick_count)
          (record r {
            pointed = r.pointed ++ (command ∷ []);
            last_camera_pointing_result = some result;
          }) in
      write_event (RuntimeEvent.camera_pointing_result r.tick_count result.success) tried

  -- Whether it returns: an exception of the handoff leaves it before the sink is called.
  unfoldable pub dispatch_camera_pointing :
      Outside R → CameraPointingCommand R → MissionRuntime R C → Bool × MissionRuntime R C
  unfolding point_camera
  dispatch_camera_pointing w command r =
      let started = write_event (RuntimeEvent.camera_pointing_dispatch r.tick_count) r in
      elim w.handoff [
        | none ↦ (true, point_camera w command started)
        | some hand ↦
            let handed = record started { handed = started.handed ++ (command ∷ []) } in
            if hand command then (true, point_camera w command handed) else (false, handed)
      ]

  unfoldable pub dispatch_command :
      Outside R → ℤ → VelocityCommand R → MissionRuntime R C → MissionRuntime R C
  unfolding command_outcome
  dispatch_command w now command r =
      let reply = w.send command in
      let (result, tracker) = command_outcome reply command.kind now r.tracker in
      let started = write_event (RuntimeEvent.command_dispatch r.tick_count command.kind) r in
      let tried =
        write_if (sink_threw reply) (RuntimeEvent.command_exception r.tick_count command.kind)
          (record started {
            sent = started.sent ++ (command ∷ []);
            last_command_result = some result;
            tracker = tracker;
            tick_command_wait_us = started.tick_command_wait_us + w.send_us;
          }) in
      write_event (RuntimeEvent.command_result r.tick_count result.kind result.success) tried

  abbrev pub dispatch_camera_if :
      Outside R → Option (CameraPointingCommand R) → MissionRuntime R C → Bool × MissionRuntime R C
  dispatch_camera_if w none r = (true, r)
  dispatch_camera_if w (some command) r = dispatch_camera_pointing w command r

  abbrev pub dispatch_command_if :
      Outside R → ℤ → Option (VelocityCommand R) → MissionRuntime R C → MissionRuntime R C
  dispatch_command_if w now none r = r
  dispatch_command_if w now (some command) r = dispatch_command w now command r
