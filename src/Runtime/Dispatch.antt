-- ===== src/Runtime/Dispatch.antt =====
-- What one tick of the runtime does: which commands reach the sinks, and which members change.
use dedalus.Base.{
  ℤ, ℕ, ◌+◌, Bool, true, false, not, if◌then◌else◌, ◌||◌, Option, none, some, List, [], ◌∷◌, ◌++◌,
  ◌≡◌, refl, arith, append_nil, subst,
}
use dedalus.Mission.{
  CameraPointingCommand, MissionLifecycleState, MissionTickInput, MissionTickOutput, Ticked,
  VelocityCommand, WorldSnapshot,
}
use dedalus.Runtime.{
  MissionRuntime, MissionRuntimeConfig, Outside, Ran, dispatch_camera_if, dispatch_camera_pointing,
  dispatch_command, dispatch_command_if, note_output, note_snapshot, output_is_terminal_settled,
  tick_input,
}
use dedalus.Runtime.Tracker.{apply_to_snapshot}
use dedalus.Runtime.Tick.{after_tick, tick_once, tick_snapshot}

abbrev pub optional : {A : Type 0} → Option A → List A
optional none = []
optional (some a) = a ∷ []

-- The commands of an output, as lists of at most one.
abbrev pub commands : {R : Type 0} → Option (MissionTickOutput R) → List (VelocityCommand R)
commands none = []
commands (some o) = optional o.command

abbrev pub pointings : {R : Type 0} → Option (MissionTickOutput R) → List (CameraPointingCommand R)
pointings none = []
pointings (some o) = optional o.camera_pointing

-- The handoff throws on the command.
abbrev cut :
    {R : Type 0} → Option (CameraPointingCommand R → Bool) → Option (CameraPointingCommand R) → Bool
cut (some hand) (some m) = not (hand m)
cut _ _ = false

abbrev handed_over : {A B : Type 0} → Option B → List A → List A
handed_over none points = []
handed_over (some hand) points = points

abbrev reaches : {A : Type 0} → Bool → List A → List A
reaches missed commands = if missed then [] else commands

module _ {R : Type 0} {C : Type 0} where
  -- The members that a stage of the tick leaves alone.
  record Kept (r s : MissionRuntime R C) : Type 0 where
    running : s.running ≡ r.running
    loop_failed : s.loop_failed ≡ r.loop_failed
    finish : s.finish_requested ≡ r.finish_requested
    overruns : s.consecutive_inflight_overruns ≡ r.consecutive_inflight_overruns
    controller : s.controller ≡ r.controller

  note_snapshot-Kept :
      (cfg : MissionRuntimeConfig) (ts : ℤ) (r : MissionRuntime R C)
      → Kept r (note_snapshot cfg ts r)
  unfolding note_snapshot
  note_snapshot-Kept cfg ts r = ground arith

  -- What the two dispatches do to the receivers and to the members.
  record Dispatched (sends : List (VelocityCommand R))
      (hands points : List (CameraPointingCommand R)) (r s : MissionRuntime R C) : Type 0 where
    kept : Kept r s
    sent : s.sent ≡ r.sent ++ sends
    handed : s.handed ≡ r.handed ++ hands
    pointed : s.pointed ≡ r.pointed ++ points
    tick_count : s.tick_count ≡ r.tick_count
    last_state : s.last_state ≡ r.last_state
    settled : s.terminal_settled ≡ r.terminal_settled

  command-Dispatched :
      (w : Outside R) (now : ℤ) (m : Option (VelocityCommand R)) (r : MissionRuntime R C)
      → Dispatched (optional m) [] [] r (dispatch_command_if w now m r)
  unfolding dispatch_command
  command-Dispatched w now none r =
      ground (arith, append_nil r.sent, append_nil r.handed, append_nil r.pointed)
  command-Dispatched w now (some m) r = ground (arith, append_nil r.handed, append_nil r.pointed)

  camera-Dispatched :
      (w : Outside R) (handoff : Option (CameraPointingCommand R → Bool))
      (m : Option (CameraPointingCommand R)) (r : MissionRuntime R C)
      → w.handoff ≡ handoff
      → ((dispatch_camera_if w m r).0 ≡ not (cut handoff m))
        × Dispatched []
            (handed_over handoff (optional m))
            (reaches (cut handoff m) (optional m))
            r
            (dispatch_camera_if w m r).1
  unfolding dispatch_camera_pointing
  camera-Dispatched w none none r e =
      ground (arith, append_nil r.sent, append_nil r.handed, append_nil r.pointed)
  camera-Dispatched w (some hand) none r e =
      ground (arith, append_nil r.sent, append_nil r.handed, append_nil r.pointed)
  camera-Dispatched w none (some m) r e =
      rw e (ground (arith, append_nil r.sent, append_nil r.handed))
  camera-Dispatched w (some hand) (some m) r e =
      rw e (ground (arith, append_nil r.sent, append_nil r.pointed))

  note_output_lem :
      (cfg : MissionRuntimeConfig) (i : MissionTickInput R) (o : MissionTickOutput R)
      (r : MissionRuntime R C)
      → Kept r (note_output cfg i o r)
        × ((note_output cfg i o r).sent ≡ r.sent)
        × ((note_output cfg i o r).handed ≡ r.handed)
        × ((note_output cfg i o r).pointed ≡ r.pointed)
        × ((note_output cfg i o r).tick_count ≡ r.tick_count + 1)
        × ((note_output cfg i o r).last_state ≡ o.state)
        × ((note_output cfg i o r).terminal_settled
            ≡ r.terminal_settled || output_is_terminal_settled o)
  unfolding note_output
  note_output_lem cfg i o r = ground arith

  note_snapshot-input :
      (cfg : MissionRuntimeConfig) (ts : ℤ) (w : Outside R) (snapshot : WorldSnapshot R)
      (r : MissionRuntime R C)
      → tick_input w snapshot (note_snapshot cfg ts r) ≡ tick_input w snapshot r
  unfolding note_snapshot tick_input
  note_snapshot-input cfg ts w snapshot r = ground arith

  note_snapshot-same :
      (cfg : MissionRuntimeConfig) (ts : ℤ) (r : MissionRuntime R C)
      → ((note_snapshot cfg ts r).sent ≡ r.sent)
        × ((note_snapshot cfg ts r).handed ≡ r.handed)
        × ((note_snapshot cfg ts r).pointed ≡ r.pointed)
        × ((note_snapshot cfg ts r).tick_count ≡ r.tick_count)
        × ((note_snapshot cfg ts r).last_state ≡ r.last_state)
        × ((note_snapshot cfg ts r).terminal_settled ≡ r.terminal_settled)
  unfolding note_snapshot
  note_snapshot-same cfg ts r = ground arith

-- The numbers and tests of an output that the runtime accounts for.
abbrev pub counts : {R : Type 0} → Option (MissionTickOutput R) → ℕ
counts none = 0
counts (some o) = 1

abbrev pub settles : {R : Type 0} → Option (MissionTickOutput R) → Bool
settles none = false
settles (some o) = output_is_terminal_settled o

abbrev pub state_after :
    {R : Type 0} → MissionLifecycleState → Option (MissionTickOutput R) → MissionLifecycleState
state_after s none = s
state_after s (some o) = o.state

-- The handoff throws on the camera command of the output.
abbrev pub missed :
    {R : Type 0} → Option (CameraPointingCommand R → Bool) → Option (MissionTickOutput R) → Bool
missed handoff none = false
missed handoff (some o) = cut handoff o.camera_pointing

-- The value of a tick; `none` is an exception of the controller or of the handoff.
abbrev pub value_of :
    {R : Type 0} → Option (WorldSnapshot R) → Bool → Option (MissionTickOutput R) → Option Bool
value_of none missing o = some false
value_of (some snapshot) missing none = none
value_of (some snapshot) missing (some o) = if missing then none else some true

module _ {R : Type 0} {C : Type 0} (cfg : MissionRuntimeConfig)
    (tick : MissionTickInput R → C → Ticked R C) where
  -- What the controller makes of the tick: nothing without a snapshot, or when it throws.
  abbrev pub tick_controller : Outside R → MissionRuntime R C → Ticked R C
  tick_controller w r = elim w.latest [
    | none ↦ record { output = none; controller = r.controller }
    | some snapshot ↦ tick (tick_input w snapshot r) r.controller
  ]

  -- `ran` is what a tick made of `r`, in which the controller gave `t`.
  pub record Accounts (latest : Option (WorldSnapshot R))
      (handoff : Option (CameraPointingCommand R → Bool)) (r : MissionRuntime R C) (ran : Ran R C)
      (t : Ticked R C) : Type 0 where
    pub value : ran.value ≡ value_of latest (missed handoff t.output) t.output
    pub handed : ran.runtime.handed ≡ r.handed ++ handed_over handoff (pointings t.output)
    pub pointed :
        ran.runtime.pointed ≡ r.pointed ++ reaches (missed handoff t.output) (pointings t.output)
    pub sent : ran.runtime.sent ≡ r.sent ++ reaches (missed handoff t.output) (commands t.output)
    pub tick_count : ran.runtime.tick_count ≡ r.tick_count + counts t.output
    pub last_state : ran.runtime.last_state ≡ state_after r.last_state t.output
    pub settled : ran.runtime.terminal_settled ≡ r.terminal_settled || settles t.output
    pub controller : ran.runtime.controller ≡ t.controller
    pub running : ran.runtime.running ≡ r.running
    pub finish : ran.runtime.finish_requested ≡ r.finish_requested
    pub overruns : ran.runtime.consecutive_inflight_overruns ≡ r.consecutive_inflight_overruns

  after_tick-Accounts :
      (w : Outside R) (snapshot : WorldSnapshot R) (i : MissionTickInput R)
      (o : Option (MissionTickOutput R)) (r : MissionRuntime R C)
      → Accounts
          (some snapshot)
          w.handoff
          r
          (after_tick cfg tick w i o r)
          (record { output = o; controller = r.controller })
  unfolding after_tick
  after_tick-Accounts w snapshot i none r = nothing w.handoff
    where
      nothing :
          (handoff : Option (CameraPointingCommand R → Bool))
          → Accounts
              (some snapshot)
              handoff
              r
              (record { value = none; runtime = r })
              (record { output = none; controller = r.controller })
      nothing none = ground (arith, append_nil r.sent, append_nil r.handed, append_nil r.pointed)
      nothing (some hand) =
          ground (arith, append_nil r.sent, append_nil r.handed, append_nil r.pointed)
  after_tick-Accounts w snapshot i (some o) r =
      let noted = note_output cfg i o r in
      let (returned, pointed) = dispatch_camera_if w o.camera_pointing noted in
      ground (
        arith,
        append_nil r.sent,
        append_nil pointed.handed,
        append_nil pointed.pointed,
        note_output_lem cfg i o r,
        camera-Dispatched w w.handoff o.camera_pointing noted refl,
        command-Dispatched w i.now o.command pointed,
      )

  tick_snapshot-Accounts :
      (w : Outside R) (snapshot : WorldSnapshot R) (r : MissionRuntime R C)
      → Accounts
          (some snapshot)
          w.handoff
          r
          (tick_snapshot cfg tick w snapshot r)
          (tick (tick_input w snapshot r) r.controller)
  unfolding tick_snapshot
  tick_snapshot-Accounts w snapshot r =
      let noted = note_snapshot cfg snapshot.timestamp r in
      let i = tick_input w snapshot noted in
      let t = tick i noted.controller in
      let from = record noted {
        tracker = (apply_to_snapshot snapshot noted.tracker).1;
        controller = t.controller;
      } in
      let same = note_snapshot-input cfg snapshot.timestamp w snapshot r in
      let kept = note_snapshot-Kept cfg snapshot.timestamp r in
      subst
        (λ j.
          Accounts (some snapshot) w.handoff r (tick_snapshot cfg tick w snapshot r)
            (tick j r.controller))
        same
        (subst
          (λ c.
            Accounts (some snapshot) w.handoff r (tick_snapshot cfg tick w snapshot r) (tick i c))
          kept.controller
          (ground (
            arith,
            kept.running,
            kept.finish,
            kept.overruns,
            note_snapshot-same cfg snapshot.timestamp r,
            after_tick-Accounts w snapshot i t.output from,
          )))

  waiting-Accounts :
      (latest : Option (WorldSnapshot R)) (handoff : Option (CameraPointingCommand R → Bool))
      (r : MissionRuntime R C) (s : Ran R C) (t : Ticked R C)
      → Accounts latest handoff (record r { tick_command_wait_us = 0 }) s t
      → Accounts latest handoff r s t
  waiting-Accounts latest handoff r s t a = ground arith

  tick_latest-Accounts :
      (w : Outside R) (latest : Option (WorldSnapshot R)) (r : MissionRuntime R C)
      → w.latest ≡ latest
      → Accounts w.latest w.handoff r (tick_once cfg tick w r) (tick_controller w r)
  unfolding tick_once tick_input
  tick_latest-Accounts w none r e = rw e (nothing w.handoff)
    where
      nothing :
          (handoff : Option (CameraPointingCommand R → Bool))
          → Accounts none handoff r
              (record { value = some false; runtime = record r { tick_command_wait_us = 0 } })
              (record { output = none; controller = r.controller })
      nothing none = ground (arith, append_nil r.sent, append_nil r.handed, append_nil r.pointed)
      nothing (some hand) =
          ground (arith, append_nil r.sent, append_nil r.handed, append_nil r.pointed)
  tick_latest-Accounts w (some snapshot) r e = rw e (
      waiting-Accounts (some snapshot) w.handoff r _ _ (
        tick_snapshot-Accounts (record w { latest = some snapshot }) snapshot
          (record r { tick_command_wait_us = 0 })))

  -- In a tick of the runtime the controller runs on the latest snapshot, if there is one, with the
  -- tracked arming state put into it. The camera command of its output goes to the handoff, if one is
  -- set, once. If the handoff does not throw, exactly the camera command and the flight command of the
  -- output go to the sinks, once each; if it throws, nothing goes to the sinks. The tick gives false
  -- without a snapshot, throws when the controller or the handoff does, and gives true otherwise. The
  -- counter, the last state and the settled flag follow the output, also when the handoff throws; the
  -- controller's members are kept also when it throws; and the tick changes neither the running nor
  -- the finish flag nor the count of overruns.
  pub tick_once-Accounts :
      (w : Outside R) (r : MissionRuntime R C)
      → Accounts w.latest w.handoff r (tick_once cfg tick w r) (tick_controller w r)
  tick_once-Accounts w r = tick_latest-Accounts w w.latest r refl
