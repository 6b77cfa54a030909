-- ===== src/Behavior/Execute/Finish.antt =====
-- A finish request during the mission.
use dedalus.Base.{
  ◌+◌, ◌<◌, Bool, true, false, none, ◌≡◌, ◌⊎◌, refl, arith, Double, length, subst, if◌then◌else◌,
  ◌||◌,
}
use dedalus.Mission.{MissionLifecycleState, MissionTickInput, MissionTickOutput, Ticked}
use dedalus.Target.{TargetSelection, select}
use dedalus.Behavior.{
  BehaviorSpec, GeometryPolicy, ObjectBehaviorMissionConfig, ObjectBehaviorMissionController,
}
use dedalus.Behavior.Sequence.{
  active_behavior, last_sequence_step_false, reset_sequence_step-index, yaw_mode_for_behavior,
}
use dedalus.Behavior.Execute.{
  Steering, steering_of, execute_selected, execute_unselected, tick_execute_mission, note_target,
  note_target_events, advance_sequence, execute_steered, finish_behavior,
}

module _ {R : Type 0} ⦃d : Double R⦄ (policy : GeometryPolicy R) where
  -- The tick throws, since the yaw mode is unknown; or the drone turns home; or a step of the sequence
  -- that was not the last one is over.
  abbrev pub Finishes :
      ObjectBehaviorMissionConfig R
      → BehaviorSpec R
      → ObjectBehaviorMissionController R
      → Ticked R (ObjectBehaviorMissionController R)
      → Type 0
  Finishes cfg behavior c t =
      ((t.output ≡ none) × (yaw_mode_for_behavior cfg behavior ≡ none))
      ⊎ ((t.controller.flight.state ≡ MissionLifecycleState.go_home)
          ⊎ ((t.controller.sequence_step_index ≡ c.sequence_step_index + 1)
              × (c.sequence_step_index + 1 < length cfg.behavior_spec.steps)))

  execute_steered-Finishes :
      (cfg : ObjectBehaviorMissionConfig R) (i : MissionTickInput R) (height : R)
      (selection : TargetSelection R) (behavior : BehaviorSpec R) (over : Bool)
      (s : Steering policy) (o : MissionTickOutput R)
      → i.finish_requested ≡ true
      → Finishes cfg behavior s.controller
          (execute_steered policy cfg i height selection behavior over s o)
  unfolding execute_steered advance_sequence finish_behavior
  execute_steered-Finishes cfg i height selection behavior over s o h = ground (
    arith,
    last_sequence_step_false cfg s.controller,
    reset_sequence_step-index i.now
        (record s.controller { sequence_step_index = s.controller.sequence_step_index + 1 }),
  )

  if-Finishes :
      (cfg : ObjectBehaviorMissionConfig R) (behavior : BehaviorSpec R) (b : Bool)
      (c : ObjectBehaviorMissionController R) (s t : Ticked R (ObjectBehaviorMissionController R))
      → Finishes cfg behavior c s
      → Finishes cfg behavior c t
      → Finishes cfg behavior c (if b then s else t)
  if-Finishes cfg behavior true c s t e h = e
  if-Finishes cfg behavior false c s t e h = h

  -- Nothing is steered when a finish is requested.
  over_steering :
      (over : Bool) (c : ObjectBehaviorMissionController R) (i : MissionTickInput R)
      (selection : TargetSelection R) (behavior : BehaviorSpec R)
      → over ≡ true
      → (steering_of policy over c i selection behavior).controller ≡ c
  unfolding steering_of
  over_steering true c i selection behavior h = refl
  over_steering false c i selection behavior h = ground (arith, h)

  execute_selected-Finishes :
      (cfg : ObjectBehaviorMissionConfig R) (i : MissionTickInput R) (height : R)
      (selection : TargetSelection R) (c : ObjectBehaviorMissionController R)
      (o : MissionTickOutput R)
      → i.finish_requested ≡ true
      → Finishes cfg (active_behavior cfg c) c (execute_selected policy cfg i height selection c o)
  unfolding execute_selected
  execute_selected-Finishes cfg i height selection c o h =
      subst
        (λ x.
          Finishes cfg (active_behavior cfg c) x
            (execute_selected policy cfg i height selection c o))
        (over_steering _ c i _ (active_behavior cfg c) (requested _ h))
        (execute_steered-Finishes cfg i height _ _ _ _ _ h)
    where
      requested : (b : Bool) → i.finish_requested ≡ true → (i.finish_requested || b) ≡ true
      requested b h = ground (arith, h)

  execute_unselected-Finishes :
      (cfg : ObjectBehaviorMissionConfig R) (i : MissionTickInput R) (selection : TargetSelection R)
      (b : BehaviorSpec R) (c : ObjectBehaviorMissionController R) (o : MissionTickOutput R)
      → i.finish_requested ≡ true
      → Finishes cfg b c (execute_unselected policy cfg i selection c o)
  unfolding execute_unselected
  execute_unselected-Finishes cfg i selection b c o h = ground arith

  -- A tick of the mission with a finish requested turns the drone home, or goes on to the next step of
  -- a sequence that has one, or throws, which it does only when the yaw mode of the active behaviour is
  -- unknown.
  pub tick_execute_mission-Finishes :
      (cfg : ObjectBehaviorMissionConfig R) (i : MissionTickInput R) (height : R)
      (c : ObjectBehaviorMissionController R) (o : MissionTickOutput R)
      → i.finish_requested ≡ true
      → Finishes cfg (active_behavior cfg c) c (tick_execute_mission policy cfg i height c o)
  unfolding tick_execute_mission note_target active_behavior
  tick_execute_mission-Finishes cfg i height c o h =
      let counted = record c { execute_tick_count = c.execute_tick_count + 1 } in
      let selection = select i.snapshot cfg.behavior_spec.target c.previous_selection in
      if-Finishes cfg (active_behavior cfg c) selection.selected c _ _
        (execute_selected-Finishes cfg i height selection (note_target cfg i.now selection counted)
          (note_target_events cfg counted o) h)
        (execute_unselected-Finishes cfg i selection (active_behavior cfg c) counted o h)
