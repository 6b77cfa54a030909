-- ===== src/Runtime/Overruns.antt =====
-- The flags of the runtime over any steps, and what overruns in flight lead to.
use dedalus.Base.{
  ℕ, ◌+◌, ◌-◌, ◌≤◌, ◌<◌, leb, true, some, List, [], ◌∷◌, length, ◌≡◌, ◌⊎◌, inr, arith,
}
use dedalus.Mission.{MissionTickInput, Ticked}
use dedalus.Runtime.{MissionRuntime, MissionRuntimeConfig, Outside}
use dedalus.Runtime.Tick.{tick_once}
use dedalus.Runtime.Loop.{
  Step, account, is_inflight, iterate, request_finish, run_steps, start, step, stop,
}
use dedalus.Runtime.Dispatch.{tick_once-Accounts}

module _ {R : Type 0} {C : Type 0} (cfg : MissionRuntimeConfig) (budget_us : ℕ)
    (tick : MissionTickInput R → C → Ticked R C) where
  -- What never goes back.
  pub record Grows (r s : MissionRuntime R C) : Type 0 where
    pub finish : r.finish_requested ≡ true → s.finish_requested ≡ true
    pub settled : r.terminal_settled ≡ true → s.terminal_settled ≡ true
    pub ticks : r.tick_count ≤ s.tick_count

  account-Grows : (tick_us : ℕ) (r : MissionRuntime R C) → Grows r (account cfg budget_us tick_us r)
  unfolding account
  account-Grows tick_us r = ground arith

  tick_once-Grows :
      (w : Outside R) (r : MissionRuntime R C) → Grows r (tick_once cfg tick w r).runtime
  tick_once-Grows w r =
      let a = tick_once-Accounts cfg tick w r in ground (arith, a.finish, a.settled, a.tick_count)

  Grows-trans : (r s t : MissionRuntime R C) → Grows r s → Grows s t → Grows r t
  Grows-trans r s t g h = ground arith

  iterate-Grows :
      (w : Outside R) (tick_us : ℕ) (r : MissionRuntime R C)
      → Grows r (iterate cfg budget_us tick w tick_us r)
  unfolding iterate
  iterate-Grows w tick_us r =
      ground (arith, tick_once-Grows w r, account-Grows tick_us (tick_once cfg tick w r).runtime)

  step-Grows : (s : Step R) (r : MissionRuntime R C) → Grows r (step cfg budget_us tick s r)
  unfolding step start stop request_finish
  step-Grows Step.starts r = ground arith
  step-Grows Step.stops r = ground arith
  step-Grows Step.requests_finish r = ground arith
  step-Grows (Step.iterates w tick_us) r = iterate-Grows w tick_us r

  -- Over any steps of the loop and calls from other threads, a finish request and the settled flag,
  -- once set, stay set, and the tick counter never goes back.
  pub run_steps-Grows :
      (steps : List (Step R)) (r : MissionRuntime R C)
      → Grows r (run_steps cfg budget_us tick steps r)
  unfolding run_steps
  run_steps-Grows [] r = ground arith
  run_steps-Grows (s ∷ steps) r =
      Grows-trans r (step cfg budget_us tick s r) _ (step-Grows s r)
        (run_steps-Grows steps (step cfg budget_us tick s r))

  -- A round of the running loop whose tick gives an output in flight and overruns its budget.
  pub record Overruns (w : Outside R) (tick_us : ℕ) (r : MissionRuntime R C) : Type 0 where
    pub running : r.running ≡ true
    pub gives : (tick_once cfg tick w r).value ≡ some true
    pub inflight : is_inflight (tick_once cfg tick w r).runtime.last_state ≡ true
    pub late :
        leb budget_us (tick_us - (tick_once cfg tick w r).runtime.tick_command_wait_us) ≡ true

  -- Every round of the list is such a round.
  abbrev pub AllOverruns : List (Outside R × ℕ) → MissionRuntime R C → Type 0
  AllOverruns [] r = Unit
  AllOverruns ((w, tick_us) ∷ rounds) r =
      Overruns w tick_us r × AllOverruns rounds (iterate cfg budget_us tick w tick_us r)

  unfoldable pub run_rounds : List (Outside R × ℕ) → MissionRuntime R C → MissionRuntime R C
  run_rounds [] r = r
  run_rounds ((w, tick_us) ∷ rounds) r = run_rounds rounds (iterate cfg budget_us tick w tick_us r)

  -- The finish is requested, or the count is at least `n` and below the limit.
  abbrev Watched : ℕ → MissionRuntime R C → Type 0
  Watched n r =
      (r.finish_requested ≡ true)
      ⊎ ((n ≤ r.consecutive_inflight_overruns)
          × (r.consecutive_inflight_overruns < cfg.max_consecutive_inflight_overruns))

  iterate-Watched :
      (w : Outside R) (tick_us : ℕ) (r : MissionRuntime R C) (n : ℕ)
      → Overruns w tick_us r
      → Watched n r
      → Watched (n + 1) (iterate cfg budget_us tick w tick_us r)
  unfolding iterate account
  iterate-Watched w tick_us r n o h =
      let a = tick_once-Accounts cfg tick w r in
      ground (arith, a.finish, a.overruns, o.running, o.gives, o.inflight, o.late)

  run_rounds-Watched :
      (rounds : List (Outside R × ℕ)) (r : MissionRuntime R C) (n : ℕ)
      → AllOverruns rounds r
      → Watched n r
      → Watched (n + length rounds) (run_rounds rounds r)
  unfolding run_rounds
  run_rounds-Watched [] r n o h = ground arith
  run_rounds-Watched ((w, tick_us) ∷ rounds) r n (o, os) h = ground (
    arith,
    run_rounds-Watched rounds (iterate cfg budget_us tick w tick_us r) (n + 1) os
        (iterate-Watched w tick_us r n o h),
  )

  -- As many consecutive overruns in flight as the limit, which is at least 1, request the finish, when
  -- the count is below the limit at first.
  pub overruns_finish :
      (rounds : List (Outside R × ℕ)) (r : MissionRuntime R C)
      → r.consecutive_inflight_overruns < cfg.max_consecutive_inflight_overruns
      → AllOverruns rounds r
      → cfg.max_consecutive_inflight_overruns ≤ length rounds
      → (run_rounds rounds r).finish_requested ≡ true
  overruns_finish rounds r h o e =
      ground (arith, run_rounds-Watched rounds r 0 o (inr (ground arith, h)))
