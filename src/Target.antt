-- ===== src/Target.antt =====
-- Which agent a behaviour follows: src/behavior/target_selector.cpp, with `TargetSelectorSpec` of
-- include/dedalus/behavior/behavior_spec.hpp. `R` is the type of `double`, and of `float`.
pub mod Choice
pub mod Optimal
use dedalus.Base.{
  ℤ, pos, ◌-ℤ◌, ltb_ℤ, ℕ, ◌==◌, Bool, true, false, not, ◌&&◌, ◌||◌, Option, none, some, List, [],
  ◌∷◌, String, str_eq, Double, nought, if◌then◌else◌,
}
use dedalus.Mission.{Vec3, ClassLabel, AgentLifecycle, AgentState, WorldSnapshot}

pub data TargetSelectionPolicy : Type 0 where
  highest_confidence nearest persistent_track : TargetSelectionPolicy

pub data TargetSelectionStatus : Type 0 where
  selected reacquiring lost no_candidates invalid_spec : TargetSelectionStatus

pub record TargetSelectorSpec (R : Type 0) : Type 0 where
  pub class_label : ClassLabel
  pub track_id : String
  pub agent_id : String
  pub confidence_min : R
  pub policy : TargetSelectionPolicy
  pub reacquire_timeout_s : R

pub record TargetSelection (R : Type 0) : Type 0 where
  pub selected : Bool
  pub status : TargetSelectionStatus
  pub agent_id : String
  pub source_track_id : String
  pub identity_id : String
  pub class_label : ClassLabel
  pub confidence : R
  pub position_local : Vec3 R
  pub velocity_local : Vec3 R
  pub map_frame_id : String
  pub target_age_s : R
  pub reason : String

-- `==` on the enumeration.
abbrev pub class_number : ClassLabel → ℕ
class_number ClassLabel.unknown = 0
class_number ClassLabel.person = 1
class_number ClassLabel.drone = 2
class_number ClassLabel.car = 3
class_number ClassLabel.boat = 4
class_number ClassLabel.animal = 5
class_number ClassLabel.house = 6
class_number ClassLabel.building = 7
class_number ClassLabel.tree = 8
class_number ClassLabel.road = 9
class_number ClassLabel.river = 10
class_number ClassLabel.terrain = 11
class_number ClassLabel.pole = 12
class_number ClassLabel.wall = 13
class_number ClassLabel.fence = 14
class_number ClassLabel.cable = 15
class_number ClassLabel.obstacle = 16

abbrev pub same_class : ClassLabel → ClassLabel → Bool
same_class a b = class_number a == class_number b

abbrev pub is_selectable_lifecycle : AgentLifecycle → Bool
is_selectable_lifecycle AgentLifecycle.new = true
is_selectable_lifecycle AgentLifecycle.active = true
is_selectable_lifecycle _ = false

abbrev pub empty_string : String → Bool
empty_string s = str_eq s ""

abbrev is_persistent : TargetSelectionPolicy → Bool
is_persistent TargetSelectionPolicy.persistent_track = true
is_persistent _ = false

module _ {R : Type 0} ⦃d : Double R⦄ where
  open d use {lt, le, eq, add, sub, mul, div, of_int, is_finite, infinity, to_float}

  abbrev zero_vec : Vec3 R
  zero_vec = record { x = nought; y = nought; z = nought }

  abbrev pub finite_vec3 : Vec3 R → Bool
  finite_vec3 v = is_finite v.x && is_finite v.y && is_finite v.z

  unfoldable pub distance_sq : Vec3 R → Vec3 R → R
  distance_sq a b =
      let dx = sub a.x b.x in
      let dy = sub a.y b.y in let dz = sub a.z b.z in add (add (mul dx dx) (mul dy dy)) (mul dz dz)

  age_seconds : ℤ → ℤ → R
  age_seconds now last_seen =
      let delta = now -ℤ last_seen in
      if not (ltb_ℤ (pos 0) delta) then nought else div (of_int delta) (of_int (pos 1_000_000_000))

  unfoldable pub make_selection : WorldSnapshot R → AgentState R → String → TargetSelection R
  unfolding age_seconds
  make_selection snapshot agent reason = record {
    selected = true;
    status = TargetSelectionStatus.selected;
    agent_id = agent.agent_id;
    source_track_id = agent.source_track_id;
    identity_id = agent.identity_id;
    class_label = agent.class_label;
    confidence = agent.confidence;
    position_local = agent.position_local;
    velocity_local = agent.velocity_local;
    map_frame_id = agent.map_frame_id;
    target_age_s = age_seconds snapshot.timestamp agent.last_seen;
    reason = reason;
  }

  pub make_empty : TargetSelectionStatus → String → TargetSelection R
  make_empty status reason = record {
    selected = false;
    status = status;
    agent_id = "";
    source_track_id = "";
    identity_id = "";
    class_label = ClassLabel.unknown;
    confidence = nought;
    position_local = zero_vec;
    velocity_local = zero_vec;
    map_frame_id = "";
    target_age_s = nought;
    reason = reason;
  }

  -- The empty selection that keeps the identity of the previous target.
  unfoldable pub make_missing :
      TargetSelectionStatus → String → TargetSelection R → TargetSelection R
  unfolding make_empty
  make_missing status reason previous = record (make_empty status reason) {
    agent_id = previous.agent_id;
    source_track_id = previous.source_track_id;
    identity_id = previous.identity_id;
    class_label = previous.class_label;
    map_frame_id = previous.map_frame_id;
    target_age_s = previous.target_age_s;
  }

  unfoldable pub matches_previous : AgentState R → TargetSelection R → Bool
  matches_previous agent previous =
      (not (empty_string previous.agent_id) && str_eq agent.agent_id previous.agent_id)
      || (not (empty_string previous.source_track_id)
          && str_eq agent.source_track_id previous.source_track_id)

  unfoldable pub matches_spec : AgentState R → TargetSelectorSpec R → Bool
  matches_spec agent spec =
      not (
        same_class spec.class_label ClassLabel.unknown
        || not (same_class agent.class_label spec.class_label))
      && is_selectable_lifecycle agent.lifecycle
      && not (lt agent.confidence (to_float spec.confidence_min))
      && finite_vec3 agent.position_local
      && not (not (empty_string spec.track_id) && not (str_eq agent.source_track_id spec.track_id))
      && not (not (empty_string spec.agent_id) && not (str_eq agent.agent_id spec.agent_id))

  -- The loop that collects `candidates`.
  unfoldable pub candidates : TargetSelectorSpec R → List (AgentState R) → List (AgentState R)
  candidates spec [] = []
  candidates spec (a ∷ agents) =
      let rest = candidates spec agents in if matches_spec a spec then a ∷ rest else rest

  unfoldable pub find_previous : TargetSelection R → List (AgentState R) → Option (AgentState R)
  find_previous previous [] = none
  find_previous previous (a ∷ agents) =
      if matches_previous a previous then some a else find_previous previous agents

  -- The two loops over the candidates after the first one, `best` so far.
  unfoldable pub most_confident : AgentState R → List (AgentState R) → AgentState R
  most_confident best [] = best
  most_confident best (a ∷ agents) =
      most_confident (if lt best.confidence a.confidence then a else best) agents

  pub nearest_to : Vec3 R → AgentState R → List (AgentState R) → AgentState R
  unfolding distance_sq
  nearest_to ego best [] = best
  nearest_to ego best (a ∷ agents) =
      let d2 = distance_sq a.position_local ego in
      let best_d2 = distance_sq best.position_local ego in
      nearest_to ego
        (if lt d2 best_d2 || (eq d2 best_d2 && lt best.confidence a.confidence) then a else best)
        agents

  -- The selection by policy; an empty list of candidates has been handled by the caller.
  unfoldable pub select_best :
      WorldSnapshot R
      → TargetSelectionPolicy
      → AgentState R
      → List (AgentState R)
      → TargetSelection R
  select_best snapshot TargetSelectionPolicy.nearest a rest =
      make_selection snapshot (nearest_to snapshot.ego.local_T_body.position a rest)
        "nearest_candidate"
  select_best snapshot _ a rest =
      make_selection snapshot (most_confident a rest) "highest_confidence_candidate"

  -- `if (candidates.empty()) …` and what follows it.
  unfoldable pub select_fresh :
      WorldSnapshot R
      → TargetSelectorSpec R
      → Option (TargetSelection R)
      → List (AgentState R)
      → TargetSelection R
  unfolding make_missing make_empty
  select_fresh snapshot spec none [] =
      make_empty TargetSelectionStatus.no_candidates "no_matching_agents"
  select_fresh snapshot spec (some p) [] =
      if p.selected
      then make_missing TargetSelectionStatus.lost "previous_target_lost" p
      else make_empty TargetSelectionStatus.no_candidates "no_matching_agents"
  select_fresh snapshot spec previous (a ∷ rest) = select_best snapshot spec.policy a rest

  -- `if (previous.has_value() && spec.policy == PersistentTrack) …` and what follows it.
  unfoldable pub select_among :
      WorldSnapshot R
      → TargetSelectorSpec R
      → Option (TargetSelection R)
      → List (AgentState R)
      → TargetSelection R
  unfolding select_fresh find_previous
  select_among snapshot spec none found = select_fresh snapshot spec none found
  select_among snapshot spec (some p) found =
      if is_persistent spec.policy
      then elim (find_previous p found) [
        | some a ↦ make_selection snapshot a "previous_target_still_valid"
        | none ↦
            if p.selected && le p.target_age_s spec.reacquire_timeout_s
            then make_missing TargetSelectionStatus.reacquiring
                "previous_target_temporarily_missing" p
            else select_fresh snapshot spec (some p) found
      ]
      else select_fresh snapshot spec (some p) found

  unfoldable pub select :
      WorldSnapshot R → TargetSelectorSpec R → Option (TargetSelection R) → TargetSelection R
  unfolding select_among
  select snapshot spec previous =
      if same_class spec.class_label ClassLabel.unknown
      then make_empty TargetSelectionStatus.invalid_spec "invalid_or_missing_target_class"
      else if lt spec.confidence_min nought || lt (of_int (pos 1)) spec.confidence_min
      then make_empty TargetSelectionStatus.invalid_spec "confidence_min_out_of_range"
      else if lt spec.reacquire_timeout_s nought
      then make_empty TargetSelectionStatus.invalid_spec "negative_reacquire_timeout"
      else select_among snapshot spec previous (candidates spec snapshot.agents)
