-- ===== src/Flight/Runs.antt =====
-- Whole missions: any sequence of ticks of any controller that keeps the contract.
use dedalus.Base.{
  ℕ, ◌+◌, ◌≤◌, true, Option, none, some, List, [], ◌∷◌, ◌≡◌, ◌≢◌, ◌⊎◌, inl, inr, refl, ◌∙◌, Double,
  All, Any, arith, if◌then◌else◌,
}
use dedalus.Mission.{
  FlightCommandKind, MissionLifecycleState, MissionTickInput, MissionTickOutput, Status, Ticked,
}
use dedalus.Flight.{Flight, same_kind}
use dedalus.Flight.Contract.{Obeys, IsDown, can_follow, rank, sent, reported}
use dedalus.Flight.Phases.{IsFresh}

-- A mission controller: `MissionController::tick` over some members, among them those of `Flight`.
pub record Machine (R : Type 0) ⦃d : Double R⦄ : Type 1 where
  pub Controller : Type 0
  pub flight : Controller → Flight R
  pub tick : MissionTickInput R → Controller → Ticked R Controller
  pub obeys :
      (i : MissionTickInput R) (c : Controller)
      → IsFresh (flight c)
      → let t = tick i c in
        Obeys i (flight c) (flight t.controller) (sent t.output) (reported t.output)

rank_mono : (s t : MissionLifecycleState) → can_follow s t ≡ true → rank s ≤ rank t
rank_mono s t h = ground arith

complete_or :
    (s : MissionLifecycleState)
    → (s ≡ MissionLifecycleState.complete) ⊎ (s ≢ MissionLifecycleState.complete)
complete_or s = ground arith

abbrev pub sends : FlightCommandKind → Option FlightCommandKind → ℕ
sends k none = 0
sends k (some j) = if same_kind j k then 1 else 0

module _ {R : Type 0} ⦃d : Double R⦄ (machine : Machine R) where
  open machine use {Controller, flight, tick, obeys}

  -- The controller after the ticks, and their outputs in order.
  unfoldable pub run : List (MissionTickInput R) → Controller → Controller
  run [] c = c
  run (i ∷ is) c = run is (tick i c).controller

  pub outputs : List (MissionTickInput R) → Controller → List (Option (MissionTickOutput R))
  outputs [] c = []
  outputs (i ∷ is) c = (tick i c).output ∷ outputs is (tick i c).controller

  -- How often a run sends the command `k`.
  pub count_sent : FlightCommandKind → List (MissionTickInput R) → Controller → ℕ
  count_sent k [] c = 0
  count_sent k (i ∷ is) c = sends k (sent (tick i c).output) + count_sent k is (tick i c).controller

  tick-IsFresh :
      (i : MissionTickInput R) (c : Controller)
      → IsFresh (flight c)
      → IsFresh (flight (tick i c).controller)
  tick-IsFresh i c f = ground (arith, obeys i c f)

  pub rank-run :
      (is : List (MissionTickInput R)) (c : Controller)
      → IsFresh (flight c)
      → rank (flight c).state ≤ rank (flight (run is c)).state
  unfolding run
  rank-run [] c f = omega arith
  rank-run (i ∷ is) c f = omega (
    arith,
    rank_mono (flight c).state (flight (tick i c).controller).state (obeys i c f).edge,
    rank-run is (tick i c).controller (tick-IsFresh i c f),
  )

  pub home-run :
      (is : List (MissionTickInput R)) (c : Controller)
      → IsFresh (flight c)
      → (flight c).mission_started ≡ true
      → (flight (run is c)).home_pose ≡ (flight c).home_pose
  unfolding run
  home-run [] c f h = refl
  home-run (i ∷ is) c f h =
      home-run is (tick i c).controller (tick-IsFresh i c f) (obeys i c f).started
      ∙ (obeys i c f).home_kept h

  abbrev pub Silent : Option (MissionTickOutput R) → Type 0
  Silent o = sent o ≡ none

  pub abort-run :
      (is : List (MissionTickInput R)) (c : Controller)
      → IsFresh (flight c)
      → (flight c).state ≡ MissionLifecycleState.abort
      → ((flight (run is c)).state ≡ MissionLifecycleState.abort) × All Silent (outputs is c)
  unfolding run outputs
  abort-run [] c f h = (h, tt)
  abort-run (i ∷ is) c f h =
      ground (arith, obeys i c f, abort-run is (tick i c).controller (tick-IsFresh i c f))

  -- The number of times a latched command was sent, with its latch before the run.
  pub takeoff_budget :
      (is : List (MissionTickInput R)) (c : Controller)
      → IsFresh (flight c)
      → count_sent FlightCommandKind.takeoff is c
          + (if (flight c).takeoff_command_sent then 1 else 0)
        ≤ 1
  unfolding count_sent
  takeoff_budget [] c f = ground arith
  takeoff_budget (i ∷ is) c f =
      ground (arith, obeys i c f, takeoff_budget is (tick i c).controller (tick-IsFresh i c f))

  pub land_budget :
      (is : List (MissionTickInput R)) (c : Controller)
      → IsFresh (flight c)
      → count_sent FlightCommandKind.land is c + (if (flight c).land_command_sent then 1 else 0) ≤ 1
  unfolding count_sent
  land_budget [] c f = ground arith
  land_budget (i ∷ is) c f =
      ground (arith, obeys i c f, land_budget is (tick i c).controller (tick-IsFresh i c f))

  abbrev pub NotComplete : Option (MissionTickOutput R) → Type 0
  NotComplete o = reported o ≢ Status.complete

  pub aborting-run :
      (is : List (MissionTickInput R)) (c : Controller)
      → IsFresh (flight c)
      → (flight c).aborting ≡ true
      → All NotComplete (outputs is c)
  unfolding outputs
  aborting-run [] c f h = tt
  aborting-run (i ∷ is) c f h =
      ground (arith, obeys i c f, aborting-run is (tick i c).controller (tick-IsFresh i c f))

  abbrev pub Downs : MissionTickInput R → Type 0
  Downs i = IsDown i.snapshot.ego

  pub complete-Downs :
      (is : List (MissionTickInput R)) (c : Controller)
      → IsFresh (flight c)
      → (flight c).state ≢ MissionLifecycleState.complete
      → (flight (run is c)).state ≡ MissionLifecycleState.complete
      → Any Downs is
  unfolding run
  complete-Downs [] c f h e = h e
  complete-Downs (i ∷ is) c f h e = elim (complete_or (flight (tick i c).controller).state) [
    | inl now ↦ inl ((obeys i c f).complete_down h now)
    | inr not_yet ↦ inr (complete-Downs is (tick i c).controller (tick-IsFresh i c f) not_yet e)
  ]
