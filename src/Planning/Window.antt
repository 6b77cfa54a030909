-- ===== src/Planning/Window.antt =====
-- The sliding window of the planning map, its snapshots and its reset:
-- src/avoidance/mission_local_planning_map_spatial.cpp, and `snapshot`, `reset` and `extent` of
-- src/avoidance/mission_local_planning_map.cpp. The rows that SQLite answers are given from outside.
use dedalus.Base.{
  ℤ, pos, ℕ, Bool, true, false, not, ◌||◌, Option, none, some, has_value, List, [], ◌∷◌, ◌++◌,
  length, ltb, if◌then◌else◌, Double, nought,
}
use dedalus.Mission.{Vec3}
use dedalus.Planning.{CellKey, Cells, StoredCell, create_cell, remove_cell_by_key}
use dedalus.Planning.Grid.{
  GridMath, MissionLocalPlanningMapConfig, MissionLocalPlanningCell, center_for_key,
}
use dedalus.Planning.Update.{MissionLocalPlanningMap, MissionLocalPlanningMapUpdateStats, no_stats}

-- A row of the table `cells`.
pub record Row (R : Type 0) : Type 0 where
  pub key : CellKey
  pub score : R
  pub confidence : R
  pub log_odds : R
  pub count : ℕ
  pub updated_ns : ℤ

pub record SlideWindowResult (R : Type 0) : Type 0 where
  pub slid : Bool
  pub newly_loaded_positions : List (Vec3 R)

pub record MissionLocalPlanningMapSnapshot (R : Type 0) : Type 0 where
  pub config : MissionLocalPlanningMapConfig R
  pub cell_count : ℕ
  pub last_update_stats : MissionLocalPlanningMapUpdateStats
  pub cells : List (MissionLocalPlanningCell R)
  pub seq : ℕ
  pub is_delta : Bool

pub record MissionLocalPlanningMapExtent (R : Type 0) : Type 0 where
  pub low : Vec3 R
  pub high : Vec3 R

-- `clear` of the three containers.
abbrev pub no_cells : {C : Type 0} → Cells C
no_cells = record { cells = []; index = λ key. none; buckets = λ b key. false }

module _ {R : Type 0} where
  unfoldable pub written_after :
      ℕ → List (StoredCell (MissionLocalPlanningCell R)) → List (MissionLocalPlanningCell R)
  written_after since_seq [] = []
  written_after since_seq (sc ∷ cells) =
      let rest = written_after since_seq cells in
      if ltb since_seq sc.write_seq then sc.cell ∷ rest else rest

  unfoldable pub snapshot : ℕ → MissionLocalPlanningMap R → MissionLocalPlanningMapSnapshot R
  snapshot since_seq m = record {
    config = m.config;
    cell_count = length m.cells.cells;
    last_update_stats = m.last_update_stats;
    cells = written_after since_seq m.cells.cells;
    seq = m.map_seq;
    is_delta = ltb 0 since_seq;
  }

  unfoldable pub reset : MissionLocalPlanningMap R → MissionLocalPlanningMap R
  reset m = record m { cells = no_cells; last_update_stats = no_stats; map_seq = 0 }

module _ {R : Type 0} ⦃d : Double R⦄ where
  abbrev pub widen_axis : R → R × R → R × R
  widen_axis c (low, high) =
      if d.lt c low then (c, high) else if d.lt high c then (low, c) else (low, high)

  unfoldable pub widen :
      List (StoredCell (MissionLocalPlanningCell R))
      → R × R
      → R × R
      → R × R
      → MissionLocalPlanningMapExtent R
  widen [] x y z = record {
    low = record { x = x.0; y = y.0; z = z.0 };
    high = record { x = x.1; y = y.1; z = z.1 };
  }
  widen (sc ∷ cells) x y z =
      let c = sc.cell.center_map in
      widen cells (widen_axis c.x x) (widen_axis c.y y) (widen_axis c.z z)

  unfoldable pub extent : MissionLocalPlanningMap R → Option (MissionLocalPlanningMapExtent R)
  extent m = elim m.cells.cells [
    | [] ↦ none
    | sc ∷ cells ↦
        let c = sc.cell.center_map in some (widen m.cells.cells (c.x, c.x) (c.y, c.y) (c.z, c.z))
  ]

  unfoldable pub dist3_sq : Vec3 R → Vec3 R → R
  dist3_sq a b =
      let dx = d.sub a.x b.x in
      let dy = d.sub a.y b.y in
      let dz = d.sub a.z b.z in d.add (d.add (d.mul dx dx) (d.mul dy dy)) (d.mul dz dz)

  abbrev pub is_far : Vec3 R → R → MissionLocalPlanningCell R → Bool
  is_far centre evict_radius_m cell =
      d.lt (d.mul evict_radius_m evict_radius_m) (dist3_sq cell.center_map centre)

  unfoldable pub far_keys :
      Vec3 R → R → List (StoredCell (MissionLocalPlanningCell R)) → List CellKey
  far_keys centre evict_radius_m [] = []
  far_keys centre evict_radius_m (sc ∷ cells) =
      let rest = far_keys centre evict_radius_m cells in
      if is_far centre evict_radius_m sc.cell then sc.key ∷ rest else rest

  unfoldable pub remove_keys :
      List CellKey → Cells (MissionLocalPlanningCell R) → Cells (MissionLocalPlanningCell R)
  remove_keys [] s = s
  remove_keys (key ∷ keys) s = remove_keys keys (remove_cell_by_key key s)

  unfoldable pub evict_far_cells :
      Vec3 R → R → Cells (MissionLocalPlanningCell R) → Cells (MissionLocalPlanningCell R)
  evict_far_cells centre evict_radius_m s = remove_keys (far_keys centre evict_radius_m s.cells) s

  module _ (config : MissionLocalPlanningMapConfig R)
      (dirty_snap : CellKey → Option (MissionLocalPlanningCell R)) where
    -- The cell of a row; the value in `dirty_cells_` is fresher. The query of the window does not
    -- read the columns `log_odds` and `updated_ns`.
    unfoldable pub window_cell : Row R → MissionLocalPlanningCell R
    window_cell row = elim (dirty_snap row.key) [
      | some cell ↦ cell
      | none ↦ record {
        center_map = center_for_key config row.key;
        log_odds = nought;
        occupied_score = d.to_float row.score;
        confidence = d.to_float row.confidence;
        source_cell_count = row.count;
        last_updated_ns = pos 0;
      }
    ]

    abbrev pub load_row :
        Row R
        → Cells (MissionLocalPlanningCell R) × List (Vec3 R)
        → Cells (MissionLocalPlanningCell R) × List (Vec3 R)
    load_row row (s, loaded) = if has_value (s.index row.key) then (s, loaded) else (
      create_cell row.key (window_cell row) 0 s,
      loaded ++ ((window_cell row).center_map ∷ []),
    )

    unfoldable pub load_rows :
        List (Row R)
        → Cells (MissionLocalPlanningCell R) × List (Vec3 R)
        → Cells (MissionLocalPlanningCell R) × List (Vec3 R)
    load_rows [] s = s
    load_rows (row ∷ rows) s = load_rows rows (load_row row s)

  module _ ⦃g : GridMath R⦄ where
    -- The key ranges of the query.
    unfoldable pub window_low : MissionLocalPlanningMapConfig R → Vec3 R → CellKey
    window_low config centre = record {
      x = g.floor_int (d.div (d.sub centre.x config.horizon_m) config.cell_size_m);
      y = g.floor_int (d.div (d.sub centre.y config.horizon_m) config.cell_size_m);
      z = g.floor_int (d.div (d.sub centre.z config.horizon_m) config.vertical_cell_size_m);
    }

    unfoldable pub window_high : MissionLocalPlanningMapConfig R → Vec3 R → CellKey
    window_high config centre = record {
      x = g.floor_int (d.div (d.add centre.x config.horizon_m) config.cell_size_m);
      y = g.floor_int (d.div (d.add centre.y config.horizon_m) config.cell_size_m);
      z = g.floor_int (d.div (d.add centre.z config.horizon_m) config.vertical_cell_size_m);
    }

    module _ (select_box : CellKey → CellKey → R → Option (List (Row R))) where
      -- `select_box` is the query; it has no answer when it could not be prepared.
      unfoldable pub load_window_from_db :
          Vec3 R → MissionLocalPlanningMap R → MissionLocalPlanningMap R × List (Vec3 R)
      load_window_from_db centre m =
          elim (select_box (window_low m.config centre) (window_high m.config centre)
            m.config.min_occupied_score) [
              | none ↦ (m, [])
              | some rows ↦
                  let (cells, loaded) = load_rows m.config m.dirty_cells rows (m.cells, []) in
                  (record m { cells = cells }, loaded)
            ]

      -- Whether the drone has moved far enough since the last slide.
      abbrev pub stays : Vec3 R → MissionLocalPlanningMap R → Bool
      stays drone_pos m =
          if m.slide_initialized
          then d.lt (d.sqrt (dist3_sq drone_pos m.last_slide_pos))
              (d.div m.config.horizon_m (d.of_int (pos 4)))
          else false

      unfoldable pub slide_window :
          Bool
          → Vec3 R
          → MissionLocalPlanningMap R
          → MissionLocalPlanningMap R × SlideWindowResult R
      slide_window has_db drone_pos m =
          if not has_db || stays drone_pos m
          then (m, record { slid = false; newly_loaded_positions = [] })
          else let (after, loaded) = load_window_from_db drone_pos (record m {
            last_slide_pos = drone_pos;
            slide_initialized = true;
            cells = evict_far_cells drone_pos (d.mul (d.of_int (pos 2)) m.config.horizon_m) m.cells;
          }) in
            (after, record { slid = true; newly_loaded_positions = loaded })
