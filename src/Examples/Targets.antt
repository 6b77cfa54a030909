-- ===== src/Examples/Targets.antt =====
-- Concrete targets: two people, of whom one is more confident and farther away.
use dedalus.Base.{
  ℤ, ◌≡◌, ◌⊎◌, inl, inr, refl, not, ltb_ℤ, In, All, [], ◌∷◌, true, false, some, none, String,
}
use dedalus.Base.Fixed.{fixed, Fixed-IsIeee}
use dedalus.Mission.{AgentState, WorldSnapshot}
use dedalus.Target.{
  TargetSelection, TargetSelectionPolicy, TargetSelectionStatus, TargetSelectorSpec, select_among,
  select_fresh, select_best, most_confident, candidates, distance_sq, make_selection,
  matches_previous, matches_spec, select,
}
use dedalus.Target.Choice.{IsValidSpec, select-Selects, select_complete, select_persistent}
use dedalus.Target.Optimal.{select_highest_confidence, select_nearest}
use dedalus.Examples.{metres, origin, person, snapshot, target_spec}

abbrev ann : AgentState ℤ
ann = person "ann" 800_000

abbrev bob : AgentState ℤ
bob = person "bob" 900_000

abbrev two_people : WorldSnapshot ℤ
two_people = snapshot (ann ∷ bob ∷ []) true (metres 8)

abbrev with_policy : TargetSelectionPolicy → TargetSelectorSpec ℤ
with_policy policy = record target_spec { policy = policy }

abbrev ann_before : TargetSelection ℤ
ann_before = make_selection two_people ann "highest_confidence_candidate"

with_policy-IsValidSpec : (policy : TargetSelectionPolicy) → IsValidSpec (with_policy policy)
with_policy-IsValidSpec policy = (refl, refl, refl)

ann_matches : (policy : TargetSelectionPolicy) → matches_spec ann (with_policy policy) ≡ true
unfolding matches_spec
ann_matches policy = refl

bob_matches : matches_spec bob (with_policy TargetSelectionPolicy.nearest) ≡ true
unfolding matches_spec
bob_matches = refl

near :
    All
      (λ b.
        not (ltb_ℤ (distance_sq b.position_local origin) (distance_sq b.position_local origin))
        ≡ true)
      two_people.agents
unfolding distance_sq
near = (refl, (refl, tt))

ann_selected : (select two_people target_spec none).selected ≡ true
unfolding select select_among select_fresh select_best candidates matches_spec most_confident
    make_selection
ann_selected = refl

ann_again : matches_previous ann ann_before ≡ true
unfolding matches_previous make_selection
ann_again = refl

select-Selects_example :
    (a : AgentState ℤ) × (r : String) × In a two_people.agents
    × (matches_spec a target_spec ≡ true)
    × (select two_people target_spec none ≡ make_selection two_people a r)
select-Selects_example = select-Selects two_people target_spec none ann_selected

select_complete_example :
    ((select two_people target_spec none).selected ≡ true)
    ⊎ ((target_spec.policy ≡ TargetSelectionPolicy.persistent_track)
        × ((select two_people target_spec none).status ≡ TargetSelectionStatus.reacquiring)
        × ((p : TargetSelection ℤ) × (none ≡ some p) × (matches_previous ann p ≡ false)))
select_complete_example =
    select_complete two_people target_spec none ann
      (with_policy-IsValidSpec TargetSelectionPolicy.highest_confidence) (inl refl)
      (ann_matches TargetSelectionPolicy.highest_confidence)

select_persistent_example :
    (b : AgentState ℤ) × In b two_people.agents
    × (matches_spec b (with_policy TargetSelectionPolicy.persistent_track) ≡ true)
    × (matches_previous b ann_before ≡ true)
    × (select two_people (with_policy TargetSelectionPolicy.persistent_track) (some ann_before)
        ≡ make_selection two_people b "previous_target_still_valid")
select_persistent_example =
    select_persistent two_people (with_policy TargetSelectionPolicy.persistent_track) ann_before ann
      (with_policy-IsValidSpec TargetSelectionPolicy.persistent_track) refl (inl refl)
      (ann_matches TargetSelectionPolicy.persistent_track) ann_again

select_highest_confidence_example :
    ltb_ℤ (select two_people target_spec none).confidence ann.confidence ≡ false
select_highest_confidence_example =
    select_highest_confidence Fixed-IsIeee two_people target_spec none ann
      (with_policy-IsValidSpec TargetSelectionPolicy.highest_confidence) refl (refl, (refl, tt))
      (inl refl) (ann_matches TargetSelectionPolicy.highest_confidence)

select_nearest_example :
    ltb_ℤ (distance_sq bob.position_local origin) (
      distance_sq
        (select two_people (with_policy TargetSelectionPolicy.nearest) none).position_local
        origin)
    ≡ false
select_nearest_example =
    select_nearest Fixed-IsIeee two_people (with_policy TargetSelectionPolicy.nearest) none bob
      (with_policy-IsValidSpec TargetSelectionPolicy.nearest) refl near (inr (inl refl)) bob_matches
