-- ===== src/Behavior/Sequence/Wrap.antt =====
-- The two loops that bring a difference of orbit angles into range end within their fuel.
use dedalus.Base.{
  ℕ, suc, not, ◌&&◌, Bool, true, false, ◌≡◌, ◌⊎◌, inl, inr, refl, subst, Double, IsIeee, nought,
  arith, if◌then◌else◌,
}
use dedalus.Behavior.{BehaviorSpec, ObjectBehaviorMissionController}
use dedalus.Behavior.Sequence.{
  circle_direction_sign, is_circle, orbit_progress, pi, two_pi, update_circle_orbit_progress,
  wrap_down, wrap_up, wrapped,
}

-- What IEEE 754 says of sums and differences of finite numbers, and of the constant `kPi`, whose
-- double is exact.
pub record IsRounded (R : Type 0) ⦃d : Double R⦄ : Type 0 where
  pub le_refl : (a : R) → d.is_finite a ≡ true → d.le a a ≡ true
  pub le_trans : (a b c : R) → d.le a b ≡ true → d.le b c ≡ true → d.le a c ≡ true
  pub le_of_lt : (a b : R) → d.lt a b ≡ true → d.le a b ≡ true
  pub finite_between :
      (a b c : R)
      → d.is_finite a ≡ true
      → d.is_finite c ≡ true
      → d.le a b ≡ true
      → d.le b c ≡ true
      → d.is_finite b ≡ true
  pub sub_mono :
      (a b x y : R)
      → d.is_finite a ≡ true
      → d.is_finite b ≡ true
      → d.is_finite x ≡ true
      → d.is_finite y ≡ true
      → d.le a b ≡ true
      → d.le x y ≡ true
      → d.le (d.sub a y) (d.sub b x) ≡ true
  pub add_mono :
      (a b x : R)
      → d.is_finite a ≡ true
      → d.is_finite b ≡ true
      → d.is_finite x ≡ true
      → d.le a b ≡ true
      → d.le (d.add a x) (d.add b x) ≡ true
  pub pi_finite :
      (d.is_finite pi ≡ true)
      × (d.is_finite (d.neg pi) ≡ true)
      × (d.is_finite two_pi ≡ true)
      × (d.is_finite (d.neg two_pi) ≡ true)
  pub pi_positive : (d.le nought pi ≡ true) × (d.le (d.neg pi) nought ≡ true)
  pub pi_exact :
      (d.sub pi (d.neg pi) ≡ two_pi)
      × (d.sub (d.neg pi) pi ≡ d.neg two_pi)
      × (d.sub pi two_pi ≡ d.neg pi)
      × (d.sub two_pi two_pi ≡ nought)
      × (d.add (d.neg pi) two_pi ≡ pi)
      × (d.add (d.neg two_pi) two_pi ≡ nought)

module _ {R : Type 0} ⦃d : Double R⦄ where
  -- The range of `atan2`.
  abbrev pub InRange : R → Type 0
  InRange a = (d.le (d.neg pi) a ≡ true) × (d.le a pi ≡ true)

  -- At most one turn, in the direction that is needed.
  abbrev pub turned : R → R
  turned delta =
      if d.lt pi delta
      then d.sub delta two_pi
      else if d.lt delta (d.neg pi)
      then d.add delta two_pi
      else delta

module _ {R : Type 0} ⦃d : Double R⦄ (ieee : IsIeee R) (laws : IsRounded R) where
  abbrev Near : R → Type 0
  Near delta = (d.le (d.neg two_pi) delta ≡ true) × (d.le delta two_pi ≡ true)

  InRange-finite : (a : R) → InRange a → d.is_finite a ≡ true
  InRange-finite a h = laws.finite_between (d.neg pi) a pi laws.pi_finite.1 laws.pi_finite.0 h.0 h.1

  Near-finite : (a : R) → Near a → d.is_finite a ≡ true
  Near-finite a h =
      laws.finite_between (d.neg two_pi) a two_pi laws.pi_finite.3 laws.pi_finite.2 h.0 h.1

  difference-Near : (a b : R) → InRange a → InRange b → Near (d.sub a b)
  difference-Near a b h k =
      let fa = InRange-finite a h in
      let fb = InRange-finite b k in
      (
        subst (λ x. d.le x (d.sub a b) ≡ true) laws.pi_exact.1
            (laws.sub_mono (d.neg pi) a b pi laws.pi_finite.1 fa fb laws.pi_finite.0 h.0 k.1),
        subst (λ x. d.le (d.sub a b) x ≡ true) laws.pi_exact.0
            (laws.sub_mono a pi (d.neg pi) b fa laws.pi_finite.0 laws.pi_finite.1 fb h.1 k.0),
      )

  not_above : (a b : R) → d.le a b ≡ true → d.lt b a ≡ false
  not_above a b h = ieee.lt_of_le a b h

  -- Past the upper end: one turn down lands between the lower end and zero.
  turned_down : (delta : R) → Near delta → d.lt pi delta ≡ true → InRange (d.sub delta two_pi)
  turned_down delta h above =
      let f = Near-finite delta h in
      (
        subst (λ x. d.le x (d.sub delta two_pi) ≡ true) laws.pi_exact.2
            (laws.sub_mono pi delta two_pi two_pi laws.pi_finite.0 f laws.pi_finite.2
              laws.pi_finite.2 (laws.le_of_lt pi delta above)
              (laws.le_refl two_pi laws.pi_finite.2)),
        laws.le_trans (d.sub delta two_pi) nought pi
            (subst (λ x. d.le (d.sub delta two_pi) x ≡ true) laws.pi_exact.3
              (laws.sub_mono delta two_pi two_pi two_pi f laws.pi_finite.2 laws.pi_finite.2
                laws.pi_finite.2 h.1 (laws.le_refl two_pi laws.pi_finite.2)))
            laws.pi_positive.0,
      )

  -- Past the lower end: one turn up lands between zero and the upper end.
  turned_up : (delta : R) → Near delta → d.lt delta (d.neg pi) ≡ true → InRange (d.add delta two_pi)
  turned_up delta h below =
      let f = Near-finite delta h in
      (
        laws.le_trans (d.neg pi) nought (d.add delta two_pi) laws.pi_positive.1 (
            subst (λ x. d.le x (d.add delta two_pi) ≡ true) laws.pi_exact.5
              (laws.add_mono (d.neg two_pi) delta two_pi laws.pi_finite.3 f laws.pi_finite.2 h.0)),
        subst (λ x. d.le (d.add delta two_pi) x ≡ true) laws.pi_exact.4
            (laws.add_mono delta (d.neg pi) two_pi f laws.pi_finite.1 laws.pi_finite.2
              (laws.le_of_lt delta (d.neg pi) below)),
      )

  at_most :
      (a b : R) → d.is_finite a ≡ true → d.is_finite b ≡ true → d.lt b a ≡ false → d.le a b ≡ true
  at_most a b fa fb h = elim (ieee.lt_or_le b a (laws.le_refl b fb) (laws.le_refl a fa)) [
    | inl above ↦ absurd (ground (arith, above, h))
    | inr below ↦ below
  ]

  turned-InRange :
      (delta : R)
      → Near delta
      → (above below : Bool) → d.lt pi delta ≡ above
      → d.lt delta (d.neg pi) ≡ below
      → InRange (if above then d.sub delta two_pi else if below then d.add delta two_pi else delta)
  turned-InRange delta h true below a b = turned_down delta h a
  turned-InRange delta h false true a b = turned_up delta h b
  turned-InRange delta h false false a b =
      let f = Near-finite delta h in
      (at_most (d.neg pi) delta laws.pi_finite.1 f b, at_most delta pi f laws.pi_finite.0 a)

  wrapped_turned :
      (n : ℕ) (delta : R)
      → Near delta
      → (above below : Bool) → d.lt pi delta ≡ above
      → d.lt delta (d.neg pi) ≡ below
      → wrapped (suc (suc n)) delta
        ≡ (if above then d.sub delta two_pi else if below then d.add delta two_pi else delta)
  unfolding wrap_down wrap_up
  wrapped_turned n delta h true below a b =
      let r = turned_down delta h a in
      ground (
        arith,
        a,
        not_above (d.sub delta two_pi) pi r.1,
        not_above (d.neg pi) (d.sub delta two_pi) r.0,
      )
  wrapped_turned n delta h false true a b =
      let r = turned_up delta h b in
      ground (arith, a, b, not_above (d.neg pi) (d.add delta two_pi) r.0)
  wrapped_turned n delta h false false a b = ground (arith, a, b)

module _ {R : Type 0} ⦃d : Double R⦄ where
  -- The progress of an orbit with the two loops on any fuel from 2 on, and without loops.
  pub record Wraps (n : ℕ) (behavior : BehaviorSpec R) (circling : Bool) (angle : R)
      (c : ObjectBehaviorMissionController R) : Type 0 where
    pub fuel :
        orbit_progress (suc (suc n)) behavior circling angle c
        ≡ update_circle_orbit_progress behavior circling angle c
    pub in_range : InRange (turned (d.sub angle c.circle_previous_angle_rad))
    pub previous :
        InRange (update_circle_orbit_progress behavior circling angle c).1.circle_previous_angle_rad
    pub orbits :
        (is_circle behavior.behavior_type
            && not (d.le behavior.orbit_count nought)
            && circling
            && c.circle_orbit_tracking
          ≡ false)
        ⊎ ((update_circle_orbit_progress behavior circling angle c).1.circle_completed_orbits ≡ (
            let directed =
              d.mul
                (circle_direction_sign behavior.direction)
                (turned (d.sub angle c.circle_previous_angle_rad)) in
            if d.lt nought directed
            then d.add c.circle_completed_orbits (d.div directed two_pi)
            else c.circle_completed_orbits))

module _ {R : Type 0} ⦃d : Double R⦄ (ieee : IsIeee R) (laws : IsRounded R) where
  -- For an angle and a previous angle in the range of `atan2`, and arithmetic that rounds as IEEE 754
  -- does, two units of fuel are enough for the two loops: more fuel gives the same progress. The
  -- difference of the angles is then brought into the range from minus pi to pi by at most one turn,
  -- and while an orbit is tracked its count grows by the share of that difference in the direction of
  -- the orbit. The angle that is kept for the next tick is in the range again.
  pub update_circle_orbit_progress-Wraps :
      (n : ℕ) (behavior : BehaviorSpec R) (circling : Bool) (angle : R)
      (c : ObjectBehaviorMissionController R)
      → InRange angle
      → InRange c.circle_previous_angle_rad
      → Wraps n behavior circling angle c
  unfolding update_circle_orbit_progress
  update_circle_orbit_progress-Wraps n behavior circling angle c h k =
      let delta = d.sub angle c.circle_previous_angle_rad in
      let near = difference-Near ieee laws angle c.circle_previous_angle_rad h k in
      let more =
        wrapped_turned ieee laws n delta near (d.lt pi delta) (d.lt delta (d.neg pi)) refl refl in
      let two =
        wrapped_turned ieee laws 0 delta near (d.lt pi delta) (d.lt delta (d.neg pi)) refl refl in
      record {
        fuel = ground (arith, more, two);
        in_range =
            turned-InRange ieee laws delta near (d.lt pi delta) (d.lt delta (d.neg pi)) refl refl;
        previous = ground (arith, h, k);
        orbits = ground (arith, two);
      }
