-- ===== src/Runtime/Settles.antt =====
-- When a mission counts as settled.
use dedalus.Base.{true, false, Option, none, some, ◌≡◌, ◌⊎◌, inl, inr, arith, Double, IsIeee}
use dedalus.Mission.{MissionLifecycleState, Status, WorldSnapshot, MissionTickOutput}
use dedalus.Flight.Contract.{reported}
use dedalus.Flight.Phases.{IsFresh}
use dedalus.Flight.Runs.{Machine}
use dedalus.Runtime.{MissionRuntime, MissionRuntimeConfig, Outside, tick_input}
use dedalus.Runtime.Tracker.{apply_to_snapshot}
use dedalus.Runtime.Tick.{tick_once}
use dedalus.Runtime.Dispatch.{settles, state_after, tick_controller, tick_once-Accounts}
use dedalus.Behavior.{GeometryPolicy, ObjectBehaviorMissionConfig, ObjectBehaviorMissionController}
use dedalus.Behavior.Tick.{tick}
use dedalus.Behavior.Missions

settles_lem :
    {R : Type 0} (s : MissionLifecycleState) (o : Option (MissionTickOutput R))
    → settles o ≡ true
    → (reported o ≡ Status.complete) ⊎ (state_after s o ≡ MissionLifecycleState.abort)
settles_lem s none h = ground arith
settles_lem s (some o) h = ground arith

module _ {R : Type 0} ⦃d : Double R⦄ (cfg : MissionRuntimeConfig) (machine : Machine R) where
  input_settles :
      (w : Outside R) (snapshot : WorldSnapshot R) (r : MissionRuntime R machine.Controller)
      → IsFresh (machine.flight r.controller)
      → settles (machine.tick (tick_input w snapshot r) r.controller).output ≡ true
      → ((snapshot.ego.armed_valid ≡ true) × (snapshot.ego.armed ≡ false))
        ⊎ (state_after r.last_state (machine.tick (tick_input w snapshot r) r.controller).output
            ≡ MissionLifecycleState.abort)
  unfolding tick_input apply_to_snapshot
  input_settles w snapshot r fresh h =
      let i = tick_input w snapshot r in
      elim (settles_lem r.last_state (machine.tick i r.controller).output h) [
        | inl complete ↦
            let settled = (machine.obeys i r.controller fresh).settles complete in
            inl (settled.2, settled.3)
        | inr aborted ↦ inr aborted
      ]

  latest_settles :
      (w : Outside R) (snapshot : WorldSnapshot R) (r : MissionRuntime R machine.Controller)
      → w.latest ≡ some snapshot
      → IsFresh (machine.flight r.controller)
      → settles (tick_controller cfg machine.tick w r).output ≡ true
      → ((snapshot.ego.armed_valid ≡ true) × (snapshot.ego.armed ≡ false))
        ⊎ (state_after r.last_state (tick_controller cfg machine.tick w r).output
            ≡ MissionLifecycleState.abort)
  latest_settles w snapshot r e fresh h = rw e (input_settles _ snapshot r fresh (rw e at h))

  settles_down :
      (w : Outside R) (snapshot : WorldSnapshot R) (r : MissionRuntime R machine.Controller)
      → w.latest ≡ some snapshot
      → IsFresh (machine.flight r.controller)
      → r.terminal_settled ≡ false
      → (tick_once cfg machine.tick w r).runtime.terminal_settled ≡ true
      → ((snapshot.ego.armed_valid ≡ true) × (snapshot.ego.armed ≡ false))
        ⊎ ((tick_once cfg machine.tick w r).runtime.last_state ≡ MissionLifecycleState.abort)
  settles_down w snapshot r e fresh unsettled h =
      let a = tick_once-Accounts cfg machine.tick w r in
      rw a.last_state
        (latest_settles w snapshot r e fresh (ground (arith, a.settled, unsettled, h)))

-- A tick of the runtime with the object behaviour controller settles the mission only when the ego of
-- its snapshot reports that it is disarmed, or the mission has aborted.
pub object_behavior_settles :
    {R : Type 0} ⦃d : Double R⦄ (laws : IsIeee R) (policy : GeometryPolicy R)
    (config : ObjectBehaviorMissionConfig R) (cfg : MissionRuntimeConfig) (w : Outside R)
    (snapshot : WorldSnapshot R) (r : MissionRuntime R (ObjectBehaviorMissionController R))
    → w.latest ≡ some snapshot
    → IsFresh r.controller.flight
    → r.terminal_settled ≡ false
    → (tick_once cfg (tick policy config) w r).runtime.terminal_settled ≡ true
    → ((snapshot.ego.armed_valid ≡ true) × (snapshot.ego.armed ≡ false))
      ⊎ ((tick_once cfg (tick policy config) w r).runtime.last_state ≡ MissionLifecycleState.abort)
object_behavior_settles laws policy config cfg =
    settles_down cfg (Missions.machine policy laws config)
