-- ===== src/Target/Choice.antt =====
-- What `TargetSelector::select` promises: it selects matching agents only, it selects one when there
-- is one, it prefers as its policy says, and a persistent track is kept.
use dedalus.Base.{
  true, false, ◌&&◌, ◌||◌, Option, none, some, List, [], ◌∷◌, String, Double, ◌≡◌, ◌≢◌, ◌⊎◌, inl,
  inr, refl, ◌∙◌, nought, pos, arith, In, Bool-cases, Option-cases, if◌then◌else◌,
}
use dedalus.Mission.{Vec3, ClassLabel, AgentState, WorldSnapshot}
use dedalus.Target.{
  TargetSelectionPolicy, TargetSelectionStatus, TargetSelectorSpec, TargetSelection, select,
  is_persistent, same_class, distance_sq, select_among, select_fresh, select_best, candidates,
  matches_spec, matches_previous, make_selection, make_empty, make_missing, most_confident,
  nearest_to, find_previous,
}

module _ {R : Type 0} ⦃d : Double R⦄ where
  module _ (spec : TargetSelectorSpec R) where
    -- The candidates are the agents that match, no more and no fewer.
    pub In-candidates :
        (agents : List (AgentState R)) (a : AgentState R)
        → In a (candidates spec agents)
        → In a agents × (matches_spec a spec ≡ true)
    unfolding candidates
    In-candidates [] a h = absurd h
    In-candidates (b ∷ agents) a h = ground (arith, In-candidates agents a)

    pub candidates-In :
        (agents : List (AgentState R)) (a : AgentState R)
        → In a agents
        → matches_spec a spec ≡ true
        → In a (candidates spec agents)
    unfolding candidates
    candidates-In [] a h m = absurd h
    candidates-In (b ∷ agents) a (inl e) m = ground (arith, e)
    candidates-In (b ∷ agents) a (inr h) m = ground (arith, candidates-In agents a h m)

  most_confident-In :
      (best : AgentState R) (rest : List (AgentState R))
      → In (most_confident best rest) (best ∷ rest)
  unfolding most_confident
  most_confident-In best [] = inl refl
  most_confident-In best (a ∷ rest) =
      ground (arith, most_confident-In (if d.lt best.confidence a.confidence then a else best) rest)

  nearest_to-In :
      (ego : Vec3 R) (best : AgentState R) (rest : List (AgentState R))
      → In (nearest_to ego best rest) (best ∷ rest)
  unfolding nearest_to
  nearest_to-In ego best [] = inl refl
  nearest_to-In ego best (a ∷ rest) =
      let d2 = distance_sq a.position_local ego in
      let best_d2 = distance_sq best.position_local ego in
      ground (
        arith,
        nearest_to-In ego
            (if d.lt d2 best_d2 || (d.eq d2 best_d2 && d.lt best.confidence a.confidence)
              then a
              else best)
            rest,
      )

  find_previous-In :
      (p : TargetSelection R) (found : List (AgentState R)) (a : AgentState R)
      → find_previous p found ≡ some a
      → In a found × (matches_previous a p ≡ true)
  unfolding find_previous
  find_previous-In p [] a h = cc
  find_previous-In p (b ∷ found) a h = ground (arith, find_previous-In p found a)

  find_previous-some :
      (p : TargetSelection R) (found : List (AgentState R)) (a : AgentState R)
      → In a found
      → matches_previous a p ≡ true
      → find_previous p found ≢ none
  unfolding find_previous
  find_previous-some p [] a h m = absurd h
  find_previous-some p (b ∷ found) a (inl e) m = ground (arith, e)
  find_previous-some p (b ∷ found) a (inr h) m = ground (arith, find_previous-some p found a h m)

  not_previous :
      (p : TargetSelection R) (found : List (AgentState R)) (a : AgentState R)
      → In a found
      → find_previous p found ≡ none
      → matches_previous a p ≡ false
  not_previous p found a h e = elim (Bool-cases (matches_previous a p)) [
    | inl same ↦ absurd (find_previous-some p found a h same e)
    | inr other ↦ other
  ]

  -- The result is the selection of an agent of the list.
  abbrev pub Selects : WorldSnapshot R → List (AgentState R) → TargetSelection R → Type 0
  Selects snapshot found s =
      (a : AgentState R) × (r : String) × In a found × (s ≡ make_selection snapshot a r)

  select_best-Selects :
      (snapshot : WorldSnapshot R) (policy : TargetSelectionPolicy) (a : AgentState R)
      (rest : List (AgentState R))
      → Selects snapshot (a ∷ rest) (select_best snapshot policy a rest)
  unfolding select_best
  select_best-Selects snapshot TargetSelectionPolicy.nearest a rest = (
    nearest_to snapshot.ego.local_T_body.position a rest,
    "nearest_candidate",
    nearest_to-In _ a rest,
    refl,
  )
  select_best-Selects snapshot _ a rest =
      (most_confident a rest, "highest_confidence_candidate", most_confident-In a rest, refl)

  select_fresh-Selects :
      (snapshot : WorldSnapshot R) (spec : TargetSelectorSpec R)
      (previous : Option (TargetSelection R)) (found : List (AgentState R))
      → (select_fresh snapshot spec previous found).selected ≡ true
      → Selects snapshot found (select_fresh snapshot spec previous found)
  unfolding select_fresh
  select_fresh-Selects snapshot spec none [] h = absurd (ground arith)
  select_fresh-Selects snapshot spec (some p) [] h = absurd (ground arith)
  select_fresh-Selects snapshot spec none (a ∷ rest) h =
      select_best-Selects snapshot spec.policy a rest
  select_fresh-Selects snapshot spec (some p) (a ∷ rest) h =
      select_best-Selects snapshot spec.policy a rest

  -- The three ways that a previous target is treated.
  abbrev KeptOr :
      WorldSnapshot R
      → TargetSelectorSpec R
      → TargetSelection R
      → List (AgentState R)
      → TargetSelection R
      → Type 0
  KeptOr snapshot spec p found s =
      ((a : AgentState R) × (find_previous p found ≡ some a)
        × (s ≡ make_selection snapshot a "previous_target_still_valid"))
      ⊎ (((spec.policy ≡ TargetSelectionPolicy.persistent_track)
            × (find_previous p found ≡ none)
            × (s
                ≡ make_missing TargetSelectionStatus.reacquiring
                    "previous_target_temporarily_missing" p))
          ⊎ (((spec.policy ≡ TargetSelectionPolicy.persistent_track) → find_previous p found ≡ none)
              × (s ≡ select_fresh snapshot spec (some p) found)))

  select_among-KeptOr :
      (snapshot : WorldSnapshot R) (spec : TargetSelectorSpec R) (p : TargetSelection R)
      (found : List (AgentState R))
      → KeptOr snapshot spec p found (select_among snapshot spec (some p) found)
  unfolding select_among
  select_among-KeptOr snapshot spec p found = elim (Option-cases (find_previous p found)) [
    | inl e ↦ inr (ground arith)
    | inr (a, e) ↦ elim (Bool-cases (is_persistent spec.policy)) [
      | inl yes_it ↦ inl (a, e, ground arith)
      | inr not_it ↦ inr (inr (ground arith))
    ]
  ]

  select_among-Selects :
      (snapshot : WorldSnapshot R) (spec : TargetSelectorSpec R)
      (previous : Option (TargetSelection R)) (found : List (AgentState R))
      → (select_among snapshot spec previous found).selected ≡ true
      → Selects snapshot found (select_among snapshot spec previous found)
  select_among-Selects snapshot spec none found h =
      unfold select_among in select_fresh-Selects snapshot spec none found h
  select_among-Selects snapshot spec (some p) found h =
      elim (select_among-KeptOr snapshot spec p found) [
        | inl (a, e, kept) ↦
            (a, "previous_target_still_valid", (find_previous-In p found a e).0, kept)
        | inr (inl (q, e, missing)) ↦ absurd (unfold make_missing make_empty in (ground arith))
        | inr (inr (q, fresh)) ↦
            rw fresh (select_fresh-Selects snapshot spec (some p) found (rw fresh at h))
      ]

  -- The three conditions that `select` checks of a specification.
  abbrev pub IsValidSpec : TargetSelectorSpec R → Type 0
  IsValidSpec spec =
      (same_class spec.class_label ClassLabel.unknown ≡ false)
      × (d.lt spec.confidence_min nought || d.lt (d.of_int (pos 1)) spec.confidence_min ≡ false)
      × (d.lt spec.reacquire_timeout_s nought ≡ false)

  pub select_valid :
      (snapshot : WorldSnapshot R) (spec : TargetSelectorSpec R)
      (previous : Option (TargetSelection R))
      → IsValidSpec spec
      → select snapshot spec previous
        ≡ select_among snapshot spec previous (candidates spec snapshot.agents)
  unfolding select
  select_valid snapshot spec previous v = ground arith

  selected_valid :
      (snapshot : WorldSnapshot R) (spec : TargetSelectorSpec R)
      (previous : Option (TargetSelection R))
      → (select snapshot spec previous).selected ≡ true
      → IsValidSpec spec
  unfolding select make_empty
  selected_valid snapshot spec previous h = ground arith

  -- A selected target is an agent of the snapshot that meets every condition of the specification,
  -- and the selection carries that agent's identity, position and velocity.
  pub select-Selects :
      (snapshot : WorldSnapshot R) (spec : TargetSelectorSpec R)
      (previous : Option (TargetSelection R))
      → (select snapshot spec previous).selected ≡ true
      → (a : AgentState R) × (r : String) × In a snapshot.agents
        × (matches_spec a spec ≡ true)
        × (select snapshot spec previous ≡ make_selection snapshot a r)
  select-Selects snapshot spec previous h =
      let same = select_valid snapshot spec previous (selected_valid snapshot spec previous h) in
      let (a, r, found, e) =
        select_among-Selects snapshot spec previous (candidates spec snapshot.agents)
          (rw same at h) in
      let (there, matches) = In-candidates spec snapshot.agents a found in
      (a, r, there, matches, same ∙ e)

  fresh_selected :
      (snapshot : WorldSnapshot R) (spec : TargetSelectorSpec R)
      (previous : Option (TargetSelection R)) (found : List (AgentState R)) (a : AgentState R)
      → In a found
      → (select_fresh snapshot spec previous found).selected ≡ true
  unfolding select_fresh select_best make_selection
  fresh_selected snapshot spec previous [] a h = absurd h
  fresh_selected snapshot spec none (b ∷ found) a h = ground arith
  fresh_selected snapshot spec (some p) (b ∷ found) a h = ground arith

  -- With a valid specification and a matching agent in the snapshot a target is selected, unless a
  -- persistent track waits for its own target, which no candidate is.
  pub select_complete :
      (snapshot : WorldSnapshot R) (spec : TargetSelectorSpec R)
      (previous : Option (TargetSelection R)) (a : AgentState R)
      → IsValidSpec spec
      → In a snapshot.agents
      → matches_spec a spec ≡ true
      → ((select snapshot spec previous).selected ≡ true)
        ⊎ ((spec.policy ≡ TargetSelectionPolicy.persistent_track)
            × ((select snapshot spec previous).status ≡ TargetSelectionStatus.reacquiring)
            × ((p : TargetSelection R) × (previous ≡ some p) × (matches_previous a p ≡ false)))
  select_complete snapshot spec none a v h m =
      let found = candidates-In spec snapshot.agents a h m in
      inl (
        rw (select_valid snapshot spec none v)
          (unfold select_among in fresh_selected snapshot spec none _ a found))
  select_complete snapshot spec (some p) a v h m =
      let found = candidates-In spec snapshot.agents a h m in
      rw (select_valid snapshot spec (some p) v)
        (elim (select_among-KeptOr snapshot spec p (candidates spec snapshot.agents)) [
          | inl (b, e, kept) ↦ inl (rw kept (unfold make_selection in refl))
          | inr (inl (persistent, missed, missing)) ↦ inr (
            persistent,
            rw missing (unfold make_missing make_empty in refl),
            (p, refl, not_previous p (candidates spec snapshot.agents) a found missed),
          )
          | inr (inr (q, fresh)) ↦ inl (rw fresh (fresh_selected snapshot spec (some p) _ a found))
        ])

  -- A persistent track keeps its target: while an agent that matches both the specification and the
  -- previous target is in the snapshot, the selection is such an agent.
  pub select_persistent :
      (snapshot : WorldSnapshot R) (spec : TargetSelectorSpec R) (p : TargetSelection R)
      (a : AgentState R)
      → IsValidSpec spec
      → spec.policy ≡ TargetSelectionPolicy.persistent_track
      → In a snapshot.agents
      → matches_spec a spec ≡ true
      → matches_previous a p ≡ true
      → (b : AgentState R) × In b snapshot.agents
        × (matches_spec b spec ≡ true)
        × (matches_previous b p ≡ true)
        × (select snapshot spec (some p) ≡ make_selection snapshot b "previous_target_still_valid")
  select_persistent snapshot spec p a v persistent h m same =
      let found = candidates-In spec snapshot.agents a h m in
      let hit = find_previous-some p (candidates spec snapshot.agents) a found same in
      rw (select_valid snapshot spec (some p) v)
        (elim (select_among-KeptOr snapshot spec p (candidates spec snapshot.agents)) [
          | inl (b, e, kept) ↦
              let (here, again) = find_previous-In p _ b e in
              let (there, matches) = In-candidates spec snapshot.agents b here in
              (b, there, matches, again, kept)
          | inr (inl (q, missed, missing)) ↦ absurd (hit missed)
          | inr (inr (q, fresh)) ↦ absurd (hit (q persistent))
        ])
