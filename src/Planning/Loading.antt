-- ===== src/Planning/Loading.antt =====
-- Loading the rows of the window: `load_window_from_db`.
use dedalus.Base.{
  ℤ, ℕ, Option, none, some, List, [], ◌∷◌, if◌then◌else◌, Double, nought, ◌≡◌, refl, ap, ◌∙◌,
}
use dedalus.Mission.{Vec3}
use dedalus.Planning.{CellKey, Cells, same_key}
use dedalus.Planning.Places.{IsConsistent, lookup}
use dedalus.Planning.Missing.{Adds, created-Adds, kept-Adds, or_else, or_else_assoc, or_else_if}
use dedalus.Planning.Grid.{MissionLocalPlanningCell, MissionLocalPlanningMapConfig, center_for_key}
use dedalus.Planning.Window.{Row, load_row, load_rows, window_cell}

module _ {R : Type 0} ⦃d : Double R⦄ (config : MissionLocalPlanningMapConfig R)
    (dirty : CellKey → Option (MissionLocalPlanningCell R)) where
  -- What a row becomes: the value to be flushed when there is one, and otherwise the row without
  -- its log-odds.
  abbrev pub reloaded : Option (MissionLocalPlanningCell R) → Row R → MissionLocalPlanningCell R
  reloaded (some cell) row = cell
  reloaded none row = record {
    center_map = center_for_key config row.key;
    log_odds = nought;
    occupied_score = d.to_float row.score;
    confidence = d.to_float row.confidence;
    source_cell_count = row.count;
    last_updated_ns = ℤ.pos 0;
  }

  window_cell_lem : (row : Row R) → window_cell config dirty row ≡ reloaded (dirty row.key) row
  unfolding window_cell
  window_cell_lem row = decide (dirty row.key)
    where
      decide :
          (o : Option (MissionLocalPlanningCell R))
          → elim o as (λ x. MissionLocalPlanningCell R) [
            | some cell ↦ cell
            | none ↦ reloaded none row
          ]
            ≡ reloaded o row
      decide none = refl
      decide (some cell) = refl

  -- The cell that the first row of a key gives.
  abbrev pub window_value : CellKey → List (Row R) → Option (MissionLocalPlanningCell R)
  window_value q [] = none
  window_value q (row ∷ rows) =
      if same_key q row.key then some (reloaded (dirty row.key) row) else window_value q rows

  loaded_row :
      (row : Row R) (s : Cells (MissionLocalPlanningCell R)) (loaded : List (Vec3 R)) (m : Option ℕ)
      (consistent : IsConsistent s)
      → s.index row.key ≡ m
      → Adds s consistent row.key
          (window_cell config dirty row)
          0
          (load_row config dirty row (s, loaded)).0
  loaded_row row s loaded none consistent e =
      rw (e, load_row) (created-Adds s consistent row.key (window_cell config dirty row) 0 e)
  loaded_row row s loaded (some i) consistent e =
      rw (e, load_row) (kept-Adds s consistent row.key (window_cell config dirty row) 0 i e)

  no_value : (o : Option (MissionLocalPlanningCell R)) → o ≡ or_else o none
  no_value none = refl
  no_value (some c) = refl

  pub loaded_rows :
      (rows : List (Row R)) (s : Cells (MissionLocalPlanningCell R)) (loaded : List (Vec3 R))
      → IsConsistent s
      → IsConsistent (load_rows config dirty rows (s, loaded)).0
        × ((q : CellKey)
            → lookup q (load_rows config dirty rows (s, loaded)).0
              ≡ or_else (lookup q s) (window_value q rows))
  unfolding load_rows Adds
  loaded_rows [] s loaded consistent = (consistent, λ q. no_value (lookup q s))
  loaded_rows (row ∷ rows) s loaded consistent =
      let (ok, looks) = loaded_row row s loaded (s.index row.key) consistent refl in
      let (all_ok, all_looks) =
        loaded_rows rows (load_row config dirty row (s, loaded)).0
          (load_row config dirty row (s, loaded)).1 ok in
      (
        all_ok,
        λ q.
            all_looks q
            ∙ ap (λ o. or_else o (window_value q rows)) (looks q)
            ∙ or_else_assoc (lookup q s) _ (window_value q rows)
            ∙ ap (or_else (lookup q s)) (
                or_else_if (same_key q row.key) (window_cell config dirty row)
                  (window_value q rows))
            ∙ ap
                (λ c.
                  or_else (lookup q s) (if same_key q row.key then some c else window_value q rows))
                (window_cell_lem row),
      )
