-- ===== src/Spec/Checks.antt =====
-- What a behaviour that the parser of src/behavior/behavior_spec.cpp accepts satisfies, with its steps.
use dedalus.Base.{
  Bool, true, false, Option, none, some, has_value, eq_iff, str_eq, if◌then◌else◌, Double, nought,
  ◌≡◌, refl, ap, sym, ◌⊎◌, inl, inr, arith,
}
use dedalus.Behavior.{BehaviorType}
use dedalus.Spec.{Result, ok, raise, ◌>>=◌, reject_if, SpecError}
use dedalus.Spec.Nodes.{ConfigNode, Entries, Nodes, SpecText, child}
use dedalus.Spec.Records.{
  AltitudeProfileSpec, BehaviorTree, Motion, Orbit, Shape, Steps, behavior, no_step, no_steps, step,
}
use dedalus.Spec.Fields.{check_profile, parse_altitude_profile, parse_profile, parse_shape}
use dedalus.Spec.Decode.{
  assemble, check_behavior, check_type, parse_behavior, parse_steps, steps_in, steps_of,
}

-- A bind that succeeds has two halves that succeed.
pub bind-ok :
    {A B P : Type 0} (m : Result A) {f : A → Result B} {b : B}
    → m >>= f ≡ ok b
    → ((a : A) → f a ≡ ok b → P)
    → P
bind-ok (ok a) h k = k a h
bind-ok (raise e) h k = absurd (ground (arith, h))

reject_if-ok : (bad : Bool) (e : SpecError) (u : Unit) → reject_if bad e ≡ ok u → bad ≡ false
reject_if-ok true e u h = absurd (ground (arith, h))
reject_if-ok false e u h = refl

-- A rejection, and what follows when it does not happen.
pub after_reject :
    {B : Type 0} (bad : Bool) (e : SpecError) (f : Unit → Result B) (b : B)
    → reject_if bad e >>= f ≡ ok b
    → (bad ≡ false) × (f tt ≡ ok b)
after_reject true e f b h = absurd (ground (arith, h))
after_reject false e f b h = (refl, h)

pub ok_inj : {A : Type 0} (a b : A) → ok a ≡ ok b → a ≡ b
ok_inj a b h = ground (arith, h)

module _ {R : Type 0} ⦃d : Double R⦄ where
  -- What the type of a behaviour asks for.
  abbrev pub TypeChecked : BehaviorType → Motion R → Shape R → Orbit R → Steps R → Type 0
  TypeChecked BehaviorType.follow m s o steps = has_value m.relative_offset_m ≡ true
  TypeChecked BehaviorType.circle m s o steps =
      (d.le s.radius_m nought ≡ false) × (d.le o.angular_speed_deg_s nought ≡ false)
  TypeChecked BehaviorType.approach m s o steps = d.le o.stop_distance_m nought ≡ false
  TypeChecked BehaviorType.sequence m s o steps = no_step steps ≡ false
  TypeChecked _ m s o steps = Unit

  pub record ProfileChecked (p : AltitudeProfileSpec R) : Type 0 where
    pub start : d.lt p.start_height_m nought ≡ false
    pub finish : d.lt p.end_height_m nought ≡ false
    pub duration : d.lt p.duration_s nought ≡ false
    pub easing : (p.easing ≡ "smoothstep") ⊎ (p.easing ≡ "linear")

  pub record IsChecked (m : Motion R) (s : Shape R) (o : Orbit R) (steps : Steps R) : Type 0 where
    pub speed : d.le m.max_speed_mps nought ≡ false
    pub vertical_speed : d.le m.max_vertical_speed_mps nought ≡ false
    pub tolerance : d.lt m.position_tolerance_m nought ≡ false
    pub timeout : d.lt m.lost_target_timeout_s nought ≡ false
    pub orbits : d.lt o.orbit_count nought ≡ false
    pub by_type : TypeChecked m.behavior_type m s o steps
    pub profile : (s.altitude_profile.enabled ≡ false) ⊎ ProfileChecked s.altitude_profile

  -- In the whole tree.
  abbrev mutual
    pub TreeChecked : BehaviorTree R → Type 0
    TreeChecked (behavior m s o steps) = IsChecked m s o steps × StepsChecked steps

    pub StepsChecked : Steps R → Type 0
    StepsChecked no_steps = Unit
    StepsChecked (step tree steps) = TreeChecked tree × StepsChecked steps

module _ {R : Type 0} ⦃d : Double R⦄ ⦃text : SpecText R⦄ where
  check_type-TypeChecked :
      (t : BehaviorType) (m : Motion R) (s : Shape R) (o : Orbit R) (steps : Steps R)
      → check_type t m s o steps ≡ ok tt
      → TypeChecked t m s o steps
  unfolding check_type
  check_type-TypeChecked BehaviorType.follow m s o steps h = ground (arith, reject_if-ok _ _ _ h)
  check_type-TypeChecked BehaviorType.circle m s o steps h =
      let (radius, rest) = after_reject _ _ _ _ h in (radius, reject_if-ok _ _ _ rest)
  check_type-TypeChecked BehaviorType.approach m s o steps h = reject_if-ok _ _ _ h
  check_type-TypeChecked BehaviorType.sequence m s o steps h = reject_if-ok _ _ _ h
  check_type-TypeChecked BehaviorType.hold m s o steps h = tt
  check_type-TypeChecked BehaviorType.search m s o steps h = tt
  check_type-TypeChecked BehaviorType.go_home m s o steps h = tt
  check_type-TypeChecked BehaviorType.land m s o steps h = tt
  check_type-TypeChecked BehaviorType.go_home_land m s o steps h = tt

  check_behavior-IsChecked :
      (m : Motion R) (s : Shape R) (o : Orbit R) (steps : Steps R)
      → check_behavior m s o steps ≡ ok tt
      → (s.altitude_profile.enabled ≡ false) ⊎ ProfileChecked s.altitude_profile
      → IsChecked m s o steps
  unfolding check_behavior
  check_behavior-IsChecked m s o steps h profile =
      let (speed, h1) = after_reject _ _ _ _ h in
      let (vertical_speed, h2) = after_reject _ _ _ _ h1 in
      let (tolerance, h3) = after_reject _ _ _ _ h2 in
      let (timeout, h4) = after_reject _ _ _ _ h3 in
      let (orbits, h5) = after_reject _ _ _ _ h4 in
      record {
        speed = speed;
        vertical_speed = vertical_speed;
        tolerance = tolerance;
        timeout = timeout;
        orbits = orbits;
        by_type = check_type-TypeChecked m.behavior_type m s o steps h5;
        profile = profile;
      }

  check_profile-ProfileChecked :
      (p : AltitudeProfileSpec R) → check_profile p ≡ ok tt → ProfileChecked p
  unfolding check_profile
  check_profile-ProfileChecked p h =
      let (start, h1) = after_reject _ _ _ _ h in
      let (finish, h2) = after_reject _ _ _ _ h1 in
      let (duration, h3) = after_reject _ _ _ _ h2 in
      record {
        start = start;
        finish = finish;
        duration = duration;
        easing =
            ground (
              arith,
              reject_if-ok _ _ _ h3,
              eq_iff p.easing "smoothstep",
              eq_iff p.easing "linear",
            );
      }

  parsed_profile :
      (node : ConfigNode) (p : AltitudeProfileSpec R)
      → parse_altitude_profile node ≡ ok p
      → check_profile p ≡ ok tt
  unfolding parse_altitude_profile
  parsed_profile node p h = ground (arith, h)

  optional_profile :
      (node : Option ConfigNode) (p : AltitudeProfileSpec R)
      → parse_profile node ≡ ok p
      → (p.enabled ≡ false) ⊎ ProfileChecked p
  optional_profile none p h = inl (ap (λ x. x.enabled) (sym (ok_inj _ _ h)))
  optional_profile (some node) p h = inr (check_profile-ProfileChecked p (parsed_profile node p h))

  parsed_shape :
      (node : ConfigNode) (s : Shape R)
      → parse_shape node ≡ ok s
      → parse_profile (child node "altitude_profile") ≡ ok s.altitude_profile
  unfolding parse_shape
  parsed_shape node s h = ground (arith, h)

  assembled_parts :
      (node : ConfigNode) (read_steps : Result (Steps R)) (m : Motion R) (s : Shape R) (o : Orbit R)
      (steps : Steps R)
      → assemble node read_steps ≡ ok (behavior m s o steps)
      → (parse_shape node ≡ ok s) × (read_steps ≡ ok steps) × (check_behavior m s o steps ≡ ok tt)
  unfolding assemble
  assembled_parts node read_steps m s o steps h =
      (ground (arith, h), ground (arith, h), ground (arith, h))

  assembled :
      (node : ConfigNode) (read_steps : Result (Steps R)) (tree : BehaviorTree R)
      → ((steps : Steps R) → read_steps ≡ ok steps → StepsChecked steps)
      → assemble node read_steps ≡ ok tree
      → TreeChecked tree
  assembled node read_steps (behavior m s o steps) checked h =
      let (shape, read, checks) = assembled_parts node read_steps m s o steps h in
      (
        check_behavior-IsChecked m s o steps checks (
            optional_profile (child node "altitude_profile") s.altitude_profile
              (parsed_shape node s shape)),
        checked steps read,
      )

  no_steps-StepsChecked : (steps : Steps R) → ok no_steps ≡ ok steps → StepsChecked steps
  no_steps-StepsChecked no_steps h = tt
  no_steps-StepsChecked (step tree steps) h = absurd (ground (arith, h))

  chosen :
      (b : Bool) (here rest : Result (Steps R)) (steps : Steps R)
      → (here ≡ ok steps → StepsChecked steps)
      → (rest ≡ ok steps → StepsChecked steps)
      → (if b then here else rest) ≡ ok steps
      → StepsChecked steps
  chosen true here rest steps f g h = f h
  chosen false here rest steps f g h = g h

  mutual
    unfolding parse_behavior steps_in steps_of parse_steps

    -- Every behaviour that is accepted, with the steps in it, passes the checks.
    pub parse_behavior-Checked :
        (node : ConfigNode) (tree : BehaviorTree R)
        → parse_behavior node ≡ ok tree
        → TreeChecked tree
    parse_behavior-Checked (ConfigNode.map entries) tree h =
        assembled (ConfigNode.map entries) (steps_in entries) tree (steps_in-Checked entries) h
    parse_behavior-Checked ConfigNode.undefined tree h =
        assembled ConfigNode.undefined (ok no_steps) tree no_steps-StepsChecked h
    parse_behavior-Checked (ConfigNode.scalar t) tree h =
        assembled (ConfigNode.scalar t) (ok no_steps) tree no_steps-StepsChecked h
    parse_behavior-Checked (ConfigNode.sequence nodes) tree h =
        assembled (ConfigNode.sequence nodes) (ok no_steps) tree no_steps-StepsChecked h

    steps_in-Checked :
        (entries : Entries) (steps : Steps R) → steps_in entries ≡ ok steps → StepsChecked steps
    steps_in-Checked Entries.end steps h = no_steps-StepsChecked steps h
    steps_in-Checked (Entries.entry key node entries) steps h =
        chosen (str_eq key "steps") (steps_of node) (steps_in entries) steps
          (steps_of-Checked node steps) (steps_in-Checked entries steps) h

    steps_of-Checked :
        (node : ConfigNode) (steps : Steps R) → steps_of node ≡ ok steps → StepsChecked steps
    steps_of-Checked (ConfigNode.sequence nodes) steps h = parse_steps-Checked nodes steps h
    steps_of-Checked ConfigNode.undefined steps h = absurd (ground (arith, h))
    steps_of-Checked (ConfigNode.scalar t) steps h = absurd (ground (arith, h))
    steps_of-Checked (ConfigNode.map entries) steps h = absurd (ground (arith, h))

    parse_steps-Checked :
        (nodes : Nodes) (steps : Steps R) → parse_steps nodes ≡ ok steps → StepsChecked steps
    parse_steps-Checked Nodes.nil steps h = no_steps-StepsChecked steps h
    parse_steps-Checked (Nodes.cons node nodes) no_steps h = tt
    parse_steps-Checked (Nodes.cons node nodes) (step tree steps) h = (
      parse_behavior-Checked node tree (ground (arith, h)),
      parse_steps-Checked nodes steps (ground (arith, h)),
    )
