-- ===== src/Spec/Missions.antt =====
-- What a mission that the parser of src/behavior/behavior_spec.cpp accepts satisfies.
use dedalus.Base.{
  String, pos, Bool, true, ◌||◌, false, Option, none, some, Double, nought, ◌≡◌, refl, subst, ◌⊎◌,
  inl, inr, arith,
}
use dedalus.Mission.{ClassLabel}
use dedalus.Target.{TargetSelectorSpec}
use dedalus.Spec.{SpecError, ok}
use dedalus.Spec.Names.{parse_policy, class_label_from_string}
use dedalus.Spec.Nodes.{
  ConfigNode, SpecText, child, one, five, required_child, scalar_string, optional_string,
  optional_double,
}
use dedalus.Spec.Records.{CompletionSpec, FallbackSpec, MissionSpec}
use dedalus.Spec.Fields.{is_unknown, parse_target_selector, read_selector}
use dedalus.Spec.Decode.{parse_completion, parse_fallback, parse_root}
use dedalus.Spec.Checks.{TreeChecked, after_reject, bind-ok, ok_inj, parse_behavior-Checked}

neither : (a b : Bool) → a || b ≡ false → (a ≡ false) × (b ≡ false)
neither true b h = absurd (ground (arith, h))
neither false b h = (refl, h)

module _ {R : Type 0} ⦃d : Double R⦄ ⦃text : SpecText R⦄ where
  -- The whole mission.
  pub record MissionChecked (root : ConfigNode) (spec : MissionSpec R) : Type 0 where
    pub label : is_unknown spec.target.class_label ≡ false
    pub confidence :
        (d.lt spec.target.confidence_min nought ≡ false)
        × (d.lt one spec.target.confidence_min ≡ false)
    pub reacquire : d.lt spec.target.reacquire_timeout_s nought ≡ false
    pub tree : TreeChecked spec.behavior
    -- Without the entry these have their defaults.
    pub after : (child root "completion" ≡ none) ⊎ (d.lt spec.completion.after_s nought ≡ false)
    pub durations :
        (child root "fallback" ≡ none)
        ⊎ ((d.lt spec.fallback.hold_s nought ≡ false)
            × (d.lt spec.fallback.search_s nought ≡ false))

  abbrev TargetChecked : TargetSelectorSpec R → Type 0
  TargetChecked t =
      (is_unknown t.class_label ≡ false)
      × ((d.lt t.confidence_min nought ≡ false) × (d.lt one t.confidence_min ≡ false))
      × (d.lt t.reacquire_timeout_s nought ≡ false)

  root_parts :
      (root : ConfigNode) (spec : MissionSpec R)
      → parse_root root ≡ ok spec
      → (parse_target_selector root ≡ ok spec.target)
        × (parse_completion root ≡ ok spec.completion)
        × (parse_fallback root ≡ ok spec.fallback)
  unfolding parse_root
  root_parts root spec h = (ground (arith, h), ground (arith, h), ground (arith, h))

  behavior_part :
      (root : ConfigNode) (spec : MissionSpec R) (o : Option ConfigNode)
      → child root "behavior" ≡ o
      → parse_root root ≡ ok spec
      → TreeChecked spec.behavior
  unfolding parse_root
  behavior_part root spec none e h = absurd (ground (arith, e, h))
  behavior_part root spec (some node) e h =
      parse_behavior-Checked node spec.behavior (ground (arith, e, h))

  selected :
      (selector : ConfigNode) (label : ClassLabel) (track_id agent_id : String)
      (t : TargetSelectorSpec R)
      → read_selector selector label track_id agent_id ≡ ok t
      → TargetChecked t
  unfolding read_selector
  selected selector label track_id agent_id t h =
      let (known, h1) = after_reject (is_unknown label) (SpecError.invalid_field "class") _ _ h in
      bind-ok (optional_double {R = R} selector "confidence_min" (d.decimal (pos 5) 1)) h1
        (λ confidence_min h2.
          bind-ok (optional_string selector "policy" "highest_confidence") h2 (λ policy_name h3.
            bind-ok (parse_policy policy_name) h3 (λ policy h4.
              bind-ok (optional_double {R = R} selector "reacquire_timeout_s" five) h4
                (λ reacquire_timeout_s h5.
                  let (confidence, h6) =
                    after_reject (d.lt confidence_min nought || d.lt one confidence_min)
                      (SpecError.invalid_field "confidence_min") _ _ h5 in
                  let (reacquire, h7) =
                    after_reject (d.lt reacquire_timeout_s nought)
                      (SpecError.invalid_field "reacquire_timeout_s") _ _ h6 in
                  subst TargetChecked (ok_inj _ _ h7) (known, neither _ _ confidence, reacquire)))))

  target_checked :
      (root : ConfigNode) (t : TargetSelectorSpec R)
      → parse_target_selector root ≡ ok t
      → TargetChecked t
  unfolding parse_target_selector
  target_checked root t h = bind-ok (required_child root "target") h (λ target h1.
      bind-ok (required_child target "selector") h1 (λ selector h2.
        bind-ok (required_child selector "class") h2 (λ class_node h3.
          bind-ok (scalar_string class_node "class") h3 (λ class_name h4.
            bind-ok (optional_string selector "track_id" "") h4 (λ track_id h5.
              bind-ok (optional_string selector "agent_id" "") h5 (λ agent_id h6.
                selected selector (class_label_from_string (text.lower class_name)) track_id
                  agent_id t h6))))))

  completion_checked :
      (root : ConfigNode) (c : CompletionSpec R) (o : Option ConfigNode)
      → child root "completion" ≡ o
      → parse_completion root ≡ ok c
      → (child root "completion" ≡ none) ⊎ (d.lt c.after_s nought ≡ false)
  unfolding parse_completion
  completion_checked root c none e h = inl e
  completion_checked root c (some node) e h = inr (ground (arith, e, h))

  fallback_checked :
      (root : ConfigNode) (f : FallbackSpec R) (o : Option ConfigNode)
      → child root "fallback" ≡ o
      → parse_fallback root ≡ ok f
      → (child root "fallback" ≡ none)
        ⊎ ((d.lt f.hold_s nought ≡ false) × (d.lt f.search_s nought ≡ false))
  unfolding parse_fallback
  fallback_checked root f none e h = inl e
  fallback_checked root f (some node) e h = inr (ground (arith, e, h), ground (arith, e, h))

  -- A mission that `parse_root` accepts has a known class, a confidence that is neither below 0 nor
  -- above 1, and a reacquire timeout that is not below 0. The durations of its completion and its
  -- fallback are not below 0 where the root has those entries. Its behaviour and every step within
  -- it, at any depth, pass the checks of `check_behavior`: speeds that are not 0 or less, no
  -- tolerance, timeout or orbit count below 0, an offset for a follow, a radius and an angular speed
  -- not 0 or less for a circle, a stop distance not 0 or less for an approach, a step for a sequence;
  -- and the altitude profile of each is off, or has heights and a duration that are not below 0 and
  -- one of the two easings.
  pub parse_root-Checked :
      (root : ConfigNode) (spec : MissionSpec R)
      → parse_root root ≡ ok spec
      → MissionChecked root spec
  parse_root-Checked root spec h =
      let (target, completion, fallback) = root_parts root spec h in
      let (label, confidence, reacquire) = target_checked root spec.target target in
      record {
        label = label;
        confidence = confidence;
        reacquire = reacquire;
        tree = behavior_part root spec (child root "behavior") refl h;
        after = completion_checked root spec.completion (child root "completion") refl completion;
        durations = fallback_checked root spec.fallback (child root "fallback") refl fallback;
      }
