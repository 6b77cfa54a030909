-- ===== src/Runtime/Tick.antt =====
-- `MissionRuntime::tick_once` of src/behavior/mission_runtime_dispatch.cpp.
use dedalus.Base.{if◌then◌else◌, Option, none, some, true, false}
use dedalus.Mission.{MissionTickInput, MissionTickOutput, Ticked, WorldSnapshot}
use dedalus.Runtime.{
  MissionRuntime, MissionRuntimeConfig, Outside, Ran, dispatch_camera_if, dispatch_command_if,
  note_output, note_snapshot, tick_input,
}
use dedalus.Runtime.Tracker.{apply_to_snapshot}

-- The controller is any `MissionController::tick` over its members `C`.
module _ {R : Type 0} {C : Type 0} (cfg : MissionRuntimeConfig)
    (tick : MissionTickInput R → C → Ticked R C) where
  -- What follows the controller's tick; no output means that it threw. An exception of the handoff
  -- leaves the tick before the flight command is dispatched.
  unfoldable pub after_tick :
      Outside R → MissionTickInput R → Option (MissionTickOutput R) → MissionRuntime R C → Ran R C
  after_tick w i none r = record { value = none; runtime = r }
  after_tick w i (some o) r =
      let (returned, pointed) = dispatch_camera_if w o.camera_pointing (note_output cfg i o r) in
      if returned
      then record { value = some true; runtime = dispatch_command_if w i.now o.command pointed }
      else record { value = none; runtime = pointed }

  -- The tick on a snapshot: detection of a stale one, the input, the controller, the outputs.
  unfoldable pub tick_snapshot : Outside R → WorldSnapshot R → MissionRuntime R C → Ran R C
  unfolding after_tick
  tick_snapshot w snapshot r =
      let noted = note_snapshot cfg snapshot.timestamp r in
      let i = tick_input w snapshot noted in
      let t = tick i noted.controller in
      after_tick w i t.output (record noted {
        tracker = (apply_to_snapshot snapshot noted.tracker).1;
        controller = t.controller;
      })

  unfoldable pub tick_once : Outside R → MissionRuntime R C → Ran R C
  unfolding tick_snapshot
  tick_once w r =
      let waiting = record r { tick_command_wait_us = 0 } in
      elim w.latest [
        | none ↦ record { value = some false; runtime = waiting }
        | some snapshot ↦ tick_snapshot w snapshot waiting
      ]
