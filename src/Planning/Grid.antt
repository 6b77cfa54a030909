-- ===== src/Planning/Grid.antt =====
-- The grid of the planning map and the contents of its cells:
-- include/dedalus/avoidance/mission_local_planning_map.hpp and the head of
-- src/avoidance/mission_local_planning_map.cpp. A `float` is a `double` that went through `to_float`.
use dedalus.Base.{ℤ, pos, ℕ, if◌then◌else◌, Double, nought}
use dedalus.Mission.{Vec3}
use dedalus.Planning.{CellKey}

-- `static_cast<int>(std::floor(x))` and `std::exp`.
pub record GridMath (R : Type 0) : Type 0 where
  pub floor_int : R → ℤ
  pub exp : R → R

pub record MissionLocalPlanningMapConfig (R : Type 0) : Type 0 where
  pub cell_size_m : R
  pub vertical_cell_size_m : R
  pub min_occupied_score : R
  pub log_odds_occupied_increment : R
  pub log_odds_free_decrement : R
  pub log_odds_max : R
  pub log_odds_eviction_threshold : R
  pub horizon_m : R

pub record MissionLocalPlanningCell (R : Type 0) : Type 0 where
  pub center_map : Vec3 R
  pub log_odds : R
  pub occupied_score : R
  pub confidence : R
  pub source_cell_count : ℕ
  pub last_updated_ns : ℤ

module _ {R : Type 0} ⦃d : Double R⦄ where
  -- The constructor.
  abbrev pub checked_config : MissionLocalPlanningMapConfig R → MissionLocalPlanningMapConfig R
  checked_config config = record config {
    cell_size_m = if d.lt nought config.cell_size_m then config.cell_size_m else d.of_int (pos 1);
    vertical_cell_size_m =
        if d.lt nought config.vertical_cell_size_m
        then config.vertical_cell_size_m
        else d.of_int (pos 2);
    min_occupied_score =
        if d.lt nought config.min_occupied_score
        then config.min_occupied_score
        else d.decimal (pos 5) 1;
    log_odds_max =
        if d.lt nought config.log_odds_max then config.log_odds_max else d.of_int (pos 8);
  }

  module _ ⦃g : GridMath R⦄ where
    unfoldable pub sigmoid : R → R
    sigmoid x = d.to_float (
        d.div (d.of_int (pos 1))
          (d.to_float (d.add (d.of_int (pos 1)) (d.to_float (g.exp (d.neg x))))))

    unfoldable pub key_for_point : MissionLocalPlanningMapConfig R → Vec3 R → CellKey
    key_for_point config point = record {
      x = g.floor_int (d.div point.x config.cell_size_m);
      y = g.floor_int (d.div point.y config.cell_size_m);
      z = g.floor_int (d.div point.z config.vertical_cell_size_m);
    }

  unfoldable pub center_for_key : MissionLocalPlanningMapConfig R → CellKey → Vec3 R
  center_for_key config key = record {
    x = d.mul (d.add (d.of_int key.x) (d.decimal (pos 5) 1)) config.cell_size_m;
    y = d.mul (d.add (d.of_int key.y) (d.decimal (pos 5) 1)) config.cell_size_m;
    z = d.mul (d.add (d.of_int key.z) (d.decimal (pos 5) 1)) config.vertical_cell_size_m;
  }
