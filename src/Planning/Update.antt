-- ===== src/Planning/Update.antt =====
-- `MissionLocalPlanningMap::update_from_traversability` and `evict_cleared_cells`:
-- src/avoidance/mission_local_planning_map.cpp.
use dedalus.Base.{
  ℤ, ℕ, ◌+◌, ◌%◌, ◌^◌, Bool, true, false, not, ◌&&◌, ◌||◌, Option, none, some, List, [], ◌∷◌, ◌++◌,
  length, get_elem?, if◌then◌else◌, Double, nought, min_double, max_double,
}
use dedalus.Mission.{Vec3}
use dedalus.Planning.{
  CellKey, Cells, StoredCell, set_at, put, erase, same_key, create_cell, remove_cell_by_key,
}
use dedalus.Planning.Places.{lookup}
use dedalus.Planning.Grid.{
  GridMath, MissionLocalPlanningMapConfig, MissionLocalPlanningCell, sigmoid, key_for_point,
  center_for_key,
}

pub data TraversabilityCellState : Type 0 where
  unknown observed_free occupied mixed stale : TraversabilityCellState

-- The fields of a Level 1 cell that the update reads.
pub record MissionLocalTraversabilityCell (R : Type 0) : Type 0 where
  pub center_map : Vec3 R
  pub state : TraversabilityCellState
  pub occupied_score : R
  pub confidence : R

pub record MissionLocalPlanningMapUpdateStats : Type 0 where
  pub l1_input_cells : ℕ
  pub l1_occupied_merged : ℕ
  pub l1_free_applied : ℕ
  pub cells_evicted : ℕ

-- The members of the map. The database is beside them, in `Planning.Store`.
pub record MissionLocalPlanningMap (R : Type 0) : Type 0 where
  pub config : MissionLocalPlanningMapConfig R
  pub last_update_stats : MissionLocalPlanningMapUpdateStats
  pub cells : Cells (MissionLocalPlanningCell R)
  pub dirty_cells : CellKey → Option (MissionLocalPlanningCell R)
  pub evicted_keys : CellKey → Bool
  pub last_slide_pos : Vec3 R
  pub slide_initialized : Bool
  pub map_seq : ℕ

abbrev pub no_stats : MissionLocalPlanningMapUpdateStats
no_stats = record {
  l1_input_cells = 0;
  l1_occupied_merged = 0;
  l1_free_applied = 0;
  cells_evicted = 0;
}

-- The locals of the update with the cells and the statistics that it changes.
pub record Updating (R : Type 0) : Type 0 where
  pub cells : Cells (MissionLocalPlanningCell R)
  pub stats : MissionLocalPlanningMapUpdateStats
  pub any_evicted : Bool
  pub local_dirty : List (CellKey × MissionLocalPlanningCell R)
  pub local_evicted : List CellKey

abbrev pub is_occupied : TraversabilityCellState → Bool
is_occupied TraversabilityCellState.occupied = true
is_occupied TraversabilityCellState.mixed = true
is_occupied _ = false

abbrev pub is_free : TraversabilityCellState → Bool
is_free TraversabilityCellState.observed_free = true
is_free _ = false

module _ {C : Type 0} where
  -- `cell_index_.find(key)` with the cell at that place.
  unfoldable pub find : CellKey → Cells C → Option (ℕ × StoredCell C)
  find key s = elim (s.index key) [
    | none ↦ none
    | some i ↦ elim (get_elem? s.cells i) [ none ↦ none | some stored ↦ some (i, stored) ]
  ]

  -- Assignments to the fields of `cells_[i]`.
  unfoldable pub store : ℕ → StoredCell C → Cells C → Cells C
  store i stored s = record s { cells = set_at i stored s.cells }

-- Membership in a vector of keys.
unfoldable pub has_key : CellKey → List CellKey → Bool
has_key q [] = false
has_key q (k ∷ keys) = same_key q k || has_key q keys

-- `evicted_keys_.insert` of each key.
unfoldable pub insert_keys : List CellKey → (CellKey → Bool) → CellKey → Bool
insert_keys [] evicted = evicted
insert_keys (k ∷ local) evicted = insert_keys local (λ q. same_key q k || evicted q)

module _ {R : Type 0} ⦃d : Double R⦄ ⦃g : GridMath R⦄ where
  unfoldable pub evict_cleared_cell :
      CellKey → Cells (MissionLocalPlanningCell R) → Cells (MissionLocalPlanningCell R)
  evict_cleared_cell key s = elim (lookup key s) [
    | none ↦ s
    | some cell ↦ if d.lt nought cell.occupied_score then s else remove_cell_by_key key s
  ]

  unfoldable pub evict_cleared_cells :
      List CellKey → Cells (MissionLocalPlanningCell R) → Cells (MissionLocalPlanningCell R)
  evict_cleared_cells [] s = s
  evict_cleared_cells (key ∷ keys) s = evict_cleared_cells keys (evict_cleared_cell key s)

  module _ (config : MissionLocalPlanningMapConfig R) (now_ns : ℤ) where
    -- An occupied hit on a cell.
    unfoldable pub reinforce :
        MissionLocalTraversabilityCell R → MissionLocalPlanningCell R → MissionLocalPlanningCell R
    reinforce l1 cell =
        let increment = d.to_float (d.mul l1.confidence config.log_odds_occupied_increment) in
        let log_odds =
          min_double (d.to_float (d.add cell.log_odds increment))
            (d.to_float config.log_odds_max) in
        record cell {
          log_odds = log_odds;
          occupied_score = sigmoid log_odds;
          confidence = max_double cell.confidence (d.to_float l1.confidence);
          source_cell_count = (cell.source_cell_count + 1) % 2 ^ 32;
          last_updated_ns = now_ns;
        }

    -- The cell that the first occupied hit makes.
    unfoldable pub first_hit :
        CellKey → MissionLocalTraversabilityCell R → MissionLocalPlanningCell R
    first_hit key l1 =
        let increment = d.to_float (d.mul l1.confidence config.log_odds_occupied_increment) in
        let log_odds = min_double increment (d.to_float config.log_odds_max) in
        record {
          center_map = center_for_key config key;
          log_odds = log_odds;
          occupied_score = sigmoid log_odds;
          confidence = d.to_float l1.confidence;
          source_cell_count = 1;
          last_updated_ns = now_ns;
        }

    -- Free-space evidence on a cell, before the test for eviction.
    unfoldable pub weaken :
        MissionLocalTraversabilityCell R → MissionLocalPlanningCell R → MissionLocalPlanningCell R
    weaken l1 cell =
        let decrement = d.to_float (d.mul l1.confidence config.log_odds_free_decrement) in
        let log_odds =
          max_double (d.to_float (d.sub cell.log_odds decrement))
            (d.neg (d.to_float config.log_odds_max)) in
        record cell { log_odds = log_odds; occupied_score = sigmoid log_odds }

    abbrev pub is_cleared : MissionLocalPlanningCell R → Bool
    is_cleared cell = d.lt cell.log_odds (d.to_float config.log_odds_eviction_threshold)

    abbrev pub clear : MissionLocalPlanningCell R → MissionLocalPlanningCell R
    clear cell = record cell { occupied_score = d.of_int (ℤ.pos 0) }

    module _ (map_seq : ℕ) where
      unfoldable pub hit_cells :
          CellKey
          → MissionLocalTraversabilityCell R
          → Option (ℕ × StoredCell (MissionLocalPlanningCell R))
          → Cells (MissionLocalPlanningCell R)
          → Cells (MissionLocalPlanningCell R)
      hit_cells key l1 none s = create_cell key (first_hit key l1) map_seq s
      hit_cells key l1 (some (i, sc)) s =
          store i (record sc { cell = reinforce l1 sc.cell; write_seq = map_seq }) s

      abbrev pub mark_dirty :
          CellKey
          → Option (MissionLocalPlanningCell R)
          → List (CellKey × MissionLocalPlanningCell R)
          → List (CellKey × MissionLocalPlanningCell R)
      mark_dirty key none dirty = dirty
      mark_dirty key (some cell) dirty = dirty ++ ((key, cell) ∷ [])

      unfoldable pub merge_occupied :
          CellKey → MissionLocalTraversabilityCell R → Updating R → Updating R
      merge_occupied key l1 u =
          let cells = hit_cells key l1 (find key u.cells) u.cells in
          record u {
            cells = cells;
            stats = record u.stats { l1_occupied_merged = u.stats.l1_occupied_merged + 1 };
            local_dirty = mark_dirty key (lookup key cells) u.local_dirty;
          }

      unfoldable pub free_found :
          CellKey
          → MissionLocalTraversabilityCell R
          → Option (ℕ × StoredCell (MissionLocalPlanningCell R))
          → Updating R
          → Updating R
      free_found key l1 none u = u
      free_found key l1 (some (i, sc)) u =
          let cell = weaken l1 sc.cell in
          if is_cleared cell
          then record u {
            cells = store i (record sc { cell = clear cell }) u.cells;
            stats = record u.stats { cells_evicted = u.stats.cells_evicted + 1 };
            any_evicted = true;
            local_evicted = u.local_evicted ++ (key ∷ []);
          }
          else record u {
            cells = store i (record sc { cell = cell; write_seq = map_seq }) u.cells;
            local_dirty = u.local_dirty ++ ((key, cell) ∷ []);
          }

      unfoldable pub apply_free :
          CellKey → MissionLocalTraversabilityCell R → Updating R → Updating R
      apply_free key l1 u =
          free_found key l1 (find key u.cells)
            (record u { stats = record u.stats { l1_free_applied = u.stats.l1_free_applied + 1 } })

      -- The body of the loop over the source's cells.
      unfoldable pub merge_cell : MissionLocalTraversabilityCell R → Updating R → Updating R
      merge_cell l1 u =
          if not (is_occupied l1.state) && not (is_free l1.state)
          then u
          else let key = key_for_point config l1.center_map in
            if is_occupied l1.state && d.le config.min_occupied_score l1.occupied_score
            then merge_occupied key l1 u
            else if is_free l1.state
            then apply_free key l1 u
            else u

      unfoldable pub merge_cells : List (MissionLocalTraversabilityCell R) → Updating R → Updating R
      merge_cells [] u = u
      merge_cells (l1 ∷ source) u = merge_cells source (merge_cell l1 u)

  -- The merge into `dirty_cells_` and `evicted_keys_` under the lock.
  unfoldable pub merge_dirty :
      List (CellKey × MissionLocalPlanningCell R)
      → (CellKey → Option (MissionLocalPlanningCell R))
      → CellKey
      → Option (MissionLocalPlanningCell R)
  merge_dirty [] dirty = dirty
  merge_dirty ((k, c) ∷ local) dirty = merge_dirty local (put k c dirty)

  unfoldable pub erase_dirty :
      List CellKey
      → (CellKey → Option (MissionLocalPlanningCell R))
      → CellKey
      → Option (MissionLocalPlanningCell R)
  erase_dirty [] dirty = dirty
  erase_dirty (k ∷ local) dirty = erase_dirty local (erase k dirty)

  abbrev pub begin_update :
      List (MissionLocalTraversabilityCell R) → MissionLocalPlanningMap R → Updating R
  begin_update source m = record {
    cells = m.cells;
    stats = record no_stats { l1_input_cells = length source };
    any_evicted = false;
    local_dirty = [];
    local_evicted = [];
  }

  abbrev pub end_update : ℕ → Updating R → MissionLocalPlanningMap R → MissionLocalPlanningMap R
  end_update map_seq u m = record m {
    map_seq = map_seq;
    last_update_stats = u.stats;
    cells = if u.any_evicted then evict_cleared_cells u.local_evicted u.cells else u.cells;
    dirty_cells = erase_dirty u.local_evicted (merge_dirty u.local_dirty m.dirty_cells);
    evicted_keys = insert_keys u.local_evicted m.evicted_keys;
  }

  unfoldable pub update_from_traversability :
      ℤ
      → List (MissionLocalTraversabilityCell R)
      → MissionLocalPlanningMap R
      → MissionLocalPlanningMap R
  update_from_traversability now_ns source m =
      let map_seq = (m.map_seq + 1) % 2 ^ 64 in
      end_update map_seq (merge_cells m.config now_ns map_seq source (begin_update source m)) m
