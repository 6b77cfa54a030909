-- ===== src/Behavior/Execute/Effect.antt =====
-- What a tick of the mission does to the lifecycle: nothing, or the way home.
use dedalus.Base.{
  Bool, true, false, Option, none, some, Double, ◌≡◌, ◌≢◌, ◌⊎◌, inl, inr, refl, nought, subst, ap,
  ◌+◌, ◌∙◌, arith, ◌||◌, ◌&&◌, not, ℤ, if◌then◌else◌,
}
use dedalus.Mission.{
  FlightCommandKind, MissionLifecycleState, EgoState, MissionTickInput, MissionTickOutput, Status,
  Ticked,
}
use dedalus.Flight.{Flight, enter, zero_vec}
use dedalus.Flight.Contract.{sent, reported}
use dedalus.Target.{TargetSelection, select}
use dedalus.Behavior.{
  BehaviorSpec, GeometryPolicy, ObjectBehaviorMissionConfig, ObjectBehaviorMissionController,
  ObjectBehaviorYawMode,
}
use dedalus.Behavior.Geometry.{apply_altitude_policy}
use dedalus.Behavior.Camera.{emit-command}
use dedalus.Behavior.Yaw.{command_from_velocity-flight, command_from_behavior_velocity-flight}
use dedalus.Behavior.Sequence.{
  is_circle, active_behavior_is_last_sequence_step, yaw_mode_for_behavior,
  update_circle_orbit_progress-flight, reset_sequence_step-flight,
}
use dedalus.Behavior.Execute.{
  step_is_complete, Steering, steer, with_profile, steering_of, advance_sequence, finish_behavior,
  fly, execute_steered, execute_selected, execute_unselected, tick_execute_mission, note_target,
  note_target_events,
}

module _ {R : Type 0} ⦃d : Double R⦄ where
  -- The tick stays in `f`, or turns home; it sends a velocity at most, and settles nothing.
  pub record Flies (now : ℤ) (f : Flight R) (t : Ticked R (ObjectBehaviorMissionController R))
      : Type 0 where
    pub moves :
        (t.controller.flight ≡ f)
        ⊎ (t.controller.flight ≡ enter MissionLifecycleState.go_home now f)
    pub commands : (sent t.output ≡ none) ⊎ (sent t.output ≡ some FlightCommandKind.velocity)
    pub not_complete : reported t.output ≢ Status.complete
    pub not_abort : reported t.output ≢ Status.abort

  module _ (policy : GeometryPolicy R) where
    if-flight :
        (b : Bool) (s t : Steering policy) (f : Flight R)
        → s.controller.flight ≡ f
        → t.controller.flight ≡ f
        → (if b then s else t).controller.flight ≡ f
    if-flight true s t f e h = e
    if-flight false s t f e h = h

    latch-flight :
        (b : Bool) (c : ObjectBehaviorMissionController R)
        → (if b then record c { circle_in_orbit_mode = true } else c).flight ≡ c.flight
    latch-flight true c = refl
    latch-flight false c = refl

    steer-flight :
        (c : ObjectBehaviorMissionController R) (e : EgoState R) (selection : TargetSelection R)
        (behavior : BehaviorSpec R)
        → (steer policy c e selection behavior).controller.flight ≡ c.flight
    unfolding steer
    steer-flight c e selection behavior =
        if-flight (is_circle behavior.behavior_type) _ _ _
          (update_circle_orbit_progress-flight behavior _ _ _ ∙ latch-flight _ c)
          (update_circle_orbit_progress-flight behavior _ _ c)

    with_profile-flight :
        (s : Steering policy) (e : EgoState R) (behavior : BehaviorSpec R) (elapsed : R)
        → (with_profile policy s e behavior elapsed).controller ≡ s.controller
    unfolding with_profile
    with_profile-flight s e behavior elapsed = refl

    steering_of-flight :
        (over : Bool) (c : ObjectBehaviorMissionController R) (i : MissionTickInput R)
        (selection : TargetSelection R) (behavior : BehaviorSpec R)
        → (steering_of policy over c i selection behavior).controller.flight ≡ c.flight
    unfolding steering_of with_profile
    steering_of-flight true c i selection behavior = refl
    steering_of-flight false c i selection behavior = steer-flight c _ selection behavior

    advance_sequence-Flies :
        (now : ℤ) (c : ObjectBehaviorMissionController R) (o : MissionTickOutput R)
        → o.command ≡ none
        → Flies now c.flight (advance_sequence policy now c o)
    unfolding advance_sequence
    advance_sequence-Flies now c o e = ground (
      arith,
      reset_sequence_step-flight now (record c { sequence_step_index = c.sequence_step_index + 1 }),
    )

    finish_behavior-Flies :
        (finish_requested : Bool) (now : ℤ) (c : ObjectBehaviorMissionController R)
        (o : MissionTickOutput R)
        → o.command ≡ none
        → Flies now c.flight (finish_behavior policy finish_requested now c o)
    unfolding finish_behavior
    finish_behavior-Flies finish_requested now c o e = ground arith

    fly-Flies :
        (cfg : ObjectBehaviorMissionConfig R) (i : MissionTickInput R) (height : R)
        (selection : TargetSelection R) (behavior : BehaviorSpec R)
        (yaw_mode : ObjectBehaviorYawMode) (s : Steering policy) (o : MissionTickOutput R)
        → Flies i.now s.controller.flight (fly policy cfg i height selection behavior yaw_mode s o)
    unfolding fly
    fly-Flies cfg i height selection behavior yaw_mode s o =
        let e =
          command_from_behavior_velocity-flight cfg s.controller i.now
            (apply_altitude_policy s.raw_velocity cfg behavior height) i.snapshot.ego selection
            (d.add cfg.yaw_offset_rad behavior.yaw_offset_rad) yaw_mode in
        record {
          moves = inl e.0;
          commands = inr (ap some e.1);
          not_complete = ground arith;
          not_abort = ground arith;
        }

    execute_unselected-Flies :
        (cfg : ObjectBehaviorMissionConfig R) (i : MissionTickInput R)
        (selection : TargetSelection R) (c : ObjectBehaviorMissionController R)
        (o : MissionTickOutput R)
        → o.command ≡ none
        → Flies i.now c.flight (execute_unselected policy cfg i selection c o)
    unfolding execute_unselected
    execute_unselected-Flies cfg i selection c o e =
        ground (arith, command_from_velocity-flight cfg c i.now zero_vec nought)

    choice-Flies :
        (advances over : Bool) (mode : Option ObjectBehaviorYawMode) (now : ℤ) (f : Flight R)
        (s t u : Ticked R (ObjectBehaviorMissionController R))
        (v : ObjectBehaviorYawMode → Ticked R (ObjectBehaviorMissionController R))
        → Flies now f s
        → Flies now f t
        → Flies now f u
        → ((y : ObjectBehaviorYawMode) → Flies now f (v y))
        → Flies now f
            (if advances then s else elim mode [ none ↦ t | some y ↦ if over then u else v y ])
    choice-Flies true over mode now f s t u v hs ht hu hv = hs
    choice-Flies false over none now f s t u v hs ht hu hv = ht
    choice-Flies false true (some y) now f s t u v hs ht hu hv = hu
    choice-Flies false false (some y) now f s t u v hs ht hu hv = hv y

    execute_steered-Flies :
        (cfg : ObjectBehaviorMissionConfig R) (i : MissionTickInput R) (height : R)
        (selection : TargetSelection R) (behavior : BehaviorSpec R) (over : Bool)
        (s : Steering policy) (o : MissionTickOutput R)
        → o.command ≡ none
        → Flies i.now s.controller.flight
            (execute_steered policy cfg i height selection behavior over s o)
    unfolding execute_steered
    execute_steered-Flies cfg i height selection behavior over s o e =
        let complete = step_is_complete policy cfg i behavior s in
        let last = active_behavior_is_last_sequence_step cfg s.controller in
        choice-Flies (complete && not last)
          (i.finish_requested || over || s.orbit_done || (complete && last))
          (yaw_mode_for_behavior cfg behavior) i.now s.controller.flight _
          (record { output = none; controller = s.controller }) _ _
          (advance_sequence-Flies i.now s.controller o e) (ground arith)
          (finish_behavior-Flies i.finish_requested i.now s.controller o e)
          (λ y. fly-Flies cfg i height selection behavior y s o)

    execute_selected-Flies :
        (cfg : ObjectBehaviorMissionConfig R) (i : MissionTickInput R) (height : R)
        (selection : TargetSelection R) (c : ObjectBehaviorMissionController R)
        (o : MissionTickOutput R)
        → o.command ≡ none
        → Flies i.now c.flight (execute_selected policy cfg i height selection c o)
    unfolding execute_selected
    execute_selected-Flies cfg i height selection c o e =
        subst (λ f. Flies i.now f (execute_selected policy cfg i height selection c o))
          (steering_of-flight _ c i _ _)
          (execute_steered-Flies cfg i height _ _ _ _ _ (emit-command _ o ∙ e))

    if-Flies :
        (b : Bool) (now : ℤ) (f : Flight R) (s t : Ticked R (ObjectBehaviorMissionController R))
        → Flies now f s
        → Flies now f t
        → Flies now f (if b then s else t)
    if-Flies true now f s t e h = e
    if-Flies false now f s t e h = h

    note_target_events-command :
        (cfg : ObjectBehaviorMissionConfig R) (c : ObjectBehaviorMissionController R)
        (o : MissionTickOutput R)
        → (note_target_events cfg c o).command ≡ o.command
    unfolding note_target_events
    note_target_events-command cfg c o = ground arith

    pub tick_execute_mission-Flies :
        (cfg : ObjectBehaviorMissionConfig R) (i : MissionTickInput R) (height : R)
        (c : ObjectBehaviorMissionController R) (o : MissionTickOutput R)
        → o.command ≡ none
        → Flies i.now c.flight (tick_execute_mission policy cfg i height c o)
    unfolding tick_execute_mission note_target note_target_events
    tick_execute_mission-Flies cfg i height c o e =
        let counted = record c { execute_tick_count = c.execute_tick_count + 1 } in
        let selection = select i.snapshot cfg.behavior_spec.target c.previous_selection in
        if-Flies selection.selected i.now c.flight _ _
          (execute_selected-Flies cfg i height selection (note_target cfg i.now selection counted)
            (note_target_events cfg counted o) (note_target_events-command cfg counted o ∙ e))
          (execute_unselected-Flies cfg i selection counted o e)
