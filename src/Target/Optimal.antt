-- ===== src/Target/Optimal.antt =====
-- The agent that the two policies prefer, for confidences and distances that are numbers.
use dedalus.Base.{
  true, false, ◌&&◌, ◌||◌, Option, none, List, [], ◌∷◌, Double, IsIeee, ◌≡◌, arith, In, All, All-In,
  some, if◌then◌else◌,
}
use dedalus.Mission.{Vec3, AgentState, WorldSnapshot}
use dedalus.Target.{
  TargetSelectionPolicy, TargetSelectorSpec, TargetSelection, select, select_among, select_fresh,
  select_best, candidates, matches_spec, make_selection, most_confident, nearest_to, distance_sq,
}
use dedalus.Target.Choice.{IsValidSpec, candidates-In, select_valid}

module _ {R : Type 0} ⦃d : Double R⦄ (laws : IsIeee R) where
  abbrev IsNumber : R → Type 0
  IsNumber x = d.le x x ≡ true

  -- What is not below the preferred one of two is not below either.
  prefer_more :
      (m : R) (best a : AgentState R)
      → IsNumber best.confidence
      → IsNumber a.confidence
      → d.lt m (if d.lt best.confidence a.confidence then a else best).confidence ≡ false
      → (d.lt m best.confidence ≡ false) × (d.lt m a.confidence ≡ false)
  prefer_more m best a nb na h = ground (
    arith,
    laws.not_lt_trans best.confidence a.confidence m,
    laws.not_lt_trans a.confidence best.confidence m,
    laws.lt_trans a.confidence best.confidence a.confidence,
    laws.lt_irrefl a.confidence,
  )

  -- Nobody in the list has more confidence than the agent that the loop ends with.
  most_confident-max :
      (best : AgentState R) (rest : List (AgentState R))
      → IsNumber best.confidence
      → All (λ a. IsNumber a.confidence) rest
      → All (λ a. d.lt (most_confident best rest).confidence a.confidence ≡ false) (best ∷ rest)
  unfolding most_confident
  most_confident-max best [] n ns = (laws.lt_irrefl best.confidence, tt)
  most_confident-max best (a ∷ rest) n ns =
      let next = if d.lt best.confidence a.confidence then a else best in
      let (first, others) = most_confident-max next rest (ground arith) ns.1 in
      let (left, right) = prefer_more _ best a n ns.0 first in (left, (right, others))

  prefer_near :
      (m : R) (ego : Vec3 R) (best a : AgentState R)
      → IsNumber (distance_sq best.position_local ego)
      → IsNumber (distance_sq a.position_local ego)
      → let d2 = distance_sq a.position_local ego in
        let best_d2 = distance_sq best.position_local ego in
        let next =
          if d.lt d2 best_d2 || (d.eq d2 best_d2 && d.lt best.confidence a.confidence)
          then a
          else best in
        d.lt (distance_sq next.position_local ego) m ≡ false
        → (d.lt best_d2 m ≡ false) × (d.lt d2 m ≡ false)
  prefer_near m ego best a nb na h =
      let d2 = distance_sq a.position_local ego in
      let best_d2 = distance_sq best.position_local ego in
      ground (
        arith,
        laws.not_lt_trans m best_d2 d2,
        laws.not_lt_trans m d2 best_d2,
        laws.lt_trans d2 best_d2 d2,
        laws.lt_irrefl d2,
        laws.not_lt_of_eq d2 best_d2,
      )

  -- Nobody in the list is nearer than the agent that the loop ends with.
  nearest_to-min :
      (ego : Vec3 R) (best : AgentState R) (rest : List (AgentState R))
      → IsNumber (distance_sq best.position_local ego)
      → All (λ a. IsNumber (distance_sq a.position_local ego)) rest
      → All
          (λ a.
            d.lt
              (distance_sq a.position_local ego)
              (distance_sq (nearest_to ego best rest).position_local ego)
            ≡ false)
          (best ∷ rest)
  unfolding nearest_to
  nearest_to-min ego best [] n ns = (laws.lt_irrefl _, tt)
  nearest_to-min ego best (a ∷ rest) n ns =
      let d2 = distance_sq a.position_local ego in
      let best_d2 = distance_sq best.position_local ego in
      let next =
        if d.lt d2 best_d2 || (d.eq d2 best_d2 && d.lt best.confidence a.confidence)
        then a
        else best in
      let (first, others) = nearest_to-min ego next rest (ground arith) ns.1 in
      let (left, right) = prefer_near _ ego best a n ns.0 first in (left, (right, others))

  All-candidates :
      (P : AgentState R → Type 0) (spec : TargetSelectorSpec R) (agents : List (AgentState R))
      → All P agents
      → All P (candidates spec agents)
  unfolding candidates
  All-candidates P spec [] h = tt
  All-candidates P spec (a ∷ agents) h = ground (arith, All-candidates P spec agents h.1)

  fresh_confidence :
      (snapshot : WorldSnapshot R) (spec : TargetSelectorSpec R)
      (previous : Option (TargetSelection R)) (found : List (AgentState R)) (a : AgentState R)
      → spec.policy ≡ TargetSelectionPolicy.highest_confidence
      → All (λ b. IsNumber b.confidence) found
      → In a found
      → d.lt (select_among snapshot spec previous found).confidence a.confidence ≡ false
  unfolding select_among select_fresh select_best make_selection
  fresh_confidence snapshot spec previous [] a e ns h = absurd h
  fresh_confidence snapshot spec none (b ∷ found) a e ns h = rw e (
      All-In (λ c. d.lt (most_confident b found).confidence c.confidence ≡ false) (b ∷ found) a
        (most_confident-max b found ns.0 ns.1) h)
  fresh_confidence snapshot spec (some p) (b ∷ found) a e ns h = rw e (
      All-In (λ c. d.lt (most_confident b found).confidence c.confidence ≡ false) (b ∷ found) a
        (most_confident-max b found ns.0 ns.1) h)

  fresh_distance :
      (snapshot : WorldSnapshot R) (spec : TargetSelectorSpec R)
      (previous : Option (TargetSelection R)) (found : List (AgentState R)) (a : AgentState R)
      → let ego = snapshot.ego.local_T_body.position in
        spec.policy ≡ TargetSelectionPolicy.nearest
        → All (λ b. IsNumber (distance_sq b.position_local ego)) found
        → In a found
        → d.lt
            (distance_sq a.position_local ego)
            (distance_sq (select_among snapshot spec previous found).position_local ego)
          ≡ false
  unfolding select_among select_fresh select_best make_selection
  fresh_distance snapshot spec previous [] a e ns h = absurd h
  fresh_distance snapshot spec none (b ∷ found) a e ns h =
      rw e (All-In _ (b ∷ found) a (nearest_to-min _ b found ns.0 ns.1) h)
  fresh_distance snapshot spec (some p) (b ∷ found) a e ns h =
      rw e (All-In _ (b ∷ found) a (nearest_to-min _ b found ns.0 ns.1) h)

  -- Under the policy `HighestConfidence`, a valid specification and confidences that are numbers, no
  -- matching agent has more confidence than the target.
  pub select_highest_confidence :
      (snapshot : WorldSnapshot R) (spec : TargetSelectorSpec R)
      (previous : Option (TargetSelection R)) (a : AgentState R)
      → IsValidSpec spec
      → spec.policy ≡ TargetSelectionPolicy.highest_confidence
      → All (λ b. IsNumber b.confidence) snapshot.agents
      → In a snapshot.agents
      → matches_spec a spec ≡ true
      → d.lt (select snapshot spec previous).confidence a.confidence ≡ false
  select_highest_confidence snapshot spec previous a v e ns h m =
      rw (select_valid snapshot spec previous v) (
        fresh_confidence snapshot spec previous _ a e
          (All-candidates (λ b. IsNumber b.confidence) spec snapshot.agents ns)
          (candidates-In spec snapshot.agents a h m))

  -- Under the policy `Nearest`, a valid specification and distances that are numbers, no matching
  -- agent is nearer to the ego than the target.
  pub select_nearest :
      (snapshot : WorldSnapshot R) (spec : TargetSelectorSpec R)
      (previous : Option (TargetSelection R)) (a : AgentState R)
      → IsValidSpec spec
      → spec.policy ≡ TargetSelectionPolicy.nearest
      → All
          (λ b. IsNumber (distance_sq b.position_local snapshot.ego.local_T_body.position))
          snapshot.agents
      → In a snapshot.agents
      → matches_spec a spec ≡ true
      → d.lt (distance_sq a.position_local snapshot.ego.local_T_body.position) (
          distance_sq
            (select snapshot spec previous).position_local
            snapshot.ego.local_T_body.position)
        ≡ false
  select_nearest snapshot spec previous a v e ns h m = rw (select_valid snapshot spec previous v) (
      fresh_distance snapshot spec previous _ a e
        (All-candidates (λ b. IsNumber (distance_sq b.position_local _)) spec snapshot.agents ns)
        (candidates-In spec snapshot.agents a h m))
