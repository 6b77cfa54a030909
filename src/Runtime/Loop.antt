-- ===== src/Runtime/Loop.antt =====
-- `start`, `stop`, `request_finish` and `loop` of src/behavior/mission_runtime.cpp. What other threads
-- do is interleaved with whole iterations of the loop.
use dedalus.Base.{
  ℕ, ◌-◌, ◌+◌, ltb, leb, Bool, true, false, not, ◌&&◌, ◌||◌, none, some, List, [], ◌∷◌,
  if◌then◌else◌,
}
use dedalus.Mission.{MissionLifecycleState, MissionTickInput, Ticked}
use dedalus.Runtime.{
  MissionRuntime, MissionRuntimeConfig, Outside, RuntimeEvent, write_event, write_if,
}
use dedalus.Runtime.Tick.{tick_once}

abbrev pub is_inflight : MissionLifecycleState → Bool
is_inflight MissionLifecycleState.execute_mission = true
is_inflight MissionLifecycleState.go_home = true
is_inflight _ = false

-- What happens next: the loop goes round, with the outside and the time of the tick, or a call.
pub data Step (R : Type 0) : Type 0 where
  starts stops requests_finish : Step R
  iterates : Outside R → ℕ → Step R

module _ {R : Type 0} {C : Type 0} where
  unfoldable pub start : MissionRuntime R C → MissionRuntime R C
  start r =
      if r.running then r else write_event RuntimeEvent.runtime_start (record r { running = true })

  unfoldable pub stop : MissionRuntime R C → MissionRuntime R C
  stop r =
      write_if (r.running || ltb 0 r.tick_count)
        (RuntimeEvent.runtime_stop r.tick_count r.last_state r.terminal_settled)
        (record r { running = false })

  unfoldable pub request_finish : MissionRuntime R C → MissionRuntime R C
  request_finish r =
      write_event (RuntimeEvent.finish_requested r.tick_count r.last_state)
        (record r { finish_requested = true })

  -- The overrun accounting after a tick of `tick_us` microseconds; the time inside `send` is exempt.
  unfoldable pub account : MissionRuntimeConfig → ℕ → ℕ → MissionRuntime R C → MissionRuntime R C
  account cfg budget_us tick_us r =
      let overrun = leb budget_us (tick_us - r.tick_command_wait_us) in
      let noted = write_if overrun (RuntimeEvent.tick_overrun r.tick_count) r in
      let count = r.consecutive_inflight_overruns + 1 in
      let counted = record noted { consecutive_inflight_overruns = count } in
      if overrun && is_inflight r.last_state
      then (if ltb 0 cfg.max_consecutive_inflight_overruns
            && leb cfg.max_consecutive_inflight_overruns count
            && not r.finish_requested
          then record (write_event (RuntimeEvent.inflight_overrun_abort r.tick_count count)
              counted) { finish_requested = true }
          else counted)
      else record noted { consecutive_inflight_overruns = 0 }

  module _ (cfg : MissionRuntimeConfig) (budget_us : ℕ)
      (tick : MissionTickInput R → C → Ticked R C) where
    -- One round of `while (running_)`; an exception of the tick ends the loop.
    unfoldable pub iterate : Outside R → ℕ → MissionRuntime R C → MissionRuntime R C
    iterate w tick_us r =
        if not r.running
        then r
        else (let ran = tick_once cfg tick w r in
            elim ran.value [
              | none ↦
                  record (write_event (RuntimeEvent.runtime_error ran.runtime.tick_count)
                    ran.runtime) { running = false; loop_failed = true }
              | some ticked ↦ account cfg budget_us tick_us ran.runtime
            ])

    unfoldable pub step : Step R → MissionRuntime R C → MissionRuntime R C
    step Step.starts r = start r
    step Step.stops r = stop r
    step Step.requests_finish r = request_finish r
    step (Step.iterates w tick_us) r = iterate w tick_us r

    unfoldable pub run_steps : List (Step R) → MissionRuntime R C → MissionRuntime R C
    run_steps [] r = r
    run_steps (s ∷ steps) r = run_steps steps (step s r)
