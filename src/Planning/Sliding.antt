-- ===== src/Planning/Sliding.antt =====
-- What a slide of the window does to the map of keys to cells.
use dedalus.Base.{ℤ, true, false, Option, none, some, List, [], Double, ◌≡◌, refl, ap, ◌∙◌}
use dedalus.Mission.{Vec3}
use dedalus.Planning.{CellKey, Cells}
use dedalus.Planning.Places.{IsConsistent, lookup}
use dedalus.Planning.Missing.{or_else}
use dedalus.Planning.Far.{evicted_far, near}
use dedalus.Planning.Loading.{loaded_rows, window_value}
use dedalus.Planning.Grid.{GridMath, MissionLocalPlanningCell}
use dedalus.Planning.Update.{MissionLocalPlanningMap}
use dedalus.Planning.Window.{
  Row, SlideWindowResult, evict_far_cells, load_window_from_db, slide_window, stays, window_high,
  window_low,
}

module _ {R : Type 0} ⦃d : Double R⦄ ⦃g : GridMath R⦄
    (select_box : CellKey → CellKey → R → Option (List (Row R))) (m : MissionLocalPlanningMap R)
    (drone_pos : Vec3 R) where
  -- The rows of the window; none when the query fails.
  abbrev pub window_rows : List (Row R)
  window_rows =
      elim (select_box (window_low m.config drone_pos) (window_high m.config drone_pos)
        m.config.min_occupied_score) [ none ↦ [] | some rows ↦ rows ]

  -- `t` is the map after a slide to `drone_pos`.
  pub record Slides (t : MissionLocalPlanningMap R × SlideWindowResult R) : Type 0 where
    pub consistent : IsConsistent t.0.cells
    pub cell :
        (q : CellKey)
        → lookup q t.0.cells
          ≡ or_else
              (near drone_pos (d.mul (d.of_int (ℤ.pos 2)) m.config.horizon_m) (lookup q m.cells))
              (window_value m.config m.dirty_cells q window_rows)
    pub slid : t.1.slid ≡ true
    pub pending :
        (q : CellKey)
        → (t.0.dirty_cells q ≡ m.dirty_cells q) × (t.0.evicted_keys q ≡ m.evicted_keys q)
    pub remembered : (t.0.slide_initialized ≡ true) × (t.0.last_slide_pos ≡ drone_pos)

  abbrev answer : Option (List (Row R))
  answer =
      select_box (window_low m.config drone_pos) (window_high m.config drone_pos)
        m.config.min_occupied_score

  abbrev slid_map : Cells (MissionLocalPlanningCell R) → MissionLocalPlanningMap R
  slid_map cells = record m { last_slide_pos = drone_pos; slide_initialized = true; cells = cells }

  abbrev evicted : Cells (MissionLocalPlanningCell R)
  evicted = evict_far_cells drone_pos (d.mul (d.of_int (ℤ.pos 2)) m.config.horizon_m) m.cells

  answered-Slides :
      (a : Option (List (Row R)))
      → IsConsistent m.cells
      → answer ≡ a
      → stays select_box drone_pos m ≡ false
      → Slides (slide_window select_box true drone_pos m)
  unfolding slide_window load_window_from_db
  answered-Slides none consistent e moved =
      let (ok, nears) =
        evicted_far drone_pos (d.mul (d.of_int (ℤ.pos 2)) m.config.horizon_m) m.cells consistent in
      rw (moved, e, load_window_from_db)
        (record {
          consistent = ok;
          cell = λ q. rw (e, window_rows) (nears q ∙ no_row _);
          slid = refl;
          pending = λ q. (refl, refl);
          remembered = (refl, refl);
        })
    where
      no_row : (o : Option (MissionLocalPlanningCell R)) → o ≡ or_else o none
      no_row none = refl
      no_row (some c) = refl
  answered-Slides (some rows) consistent e moved =
      let (ok, nears) =
        evicted_far drone_pos (d.mul (d.of_int (ℤ.pos 2)) m.config.horizon_m) m.cells consistent in
      let (all_ok, looks) = loaded_rows m.config m.dirty_cells rows evicted [] ok in
      rw (moved, e, load_window_from_db)
        (record {
          consistent = all_ok;
          cell = λ q.
              rw (e, window_rows)
                (looks q
                  ∙ ap (λ o. or_else o (window_value m.config m.dirty_cells q rows)) (nears q));
          slid = refl;
          pending = λ q. (refl, refl);
          remembered = (refl, refl);
        })

  -- A slide of the window, with a database and the drone moved far enough, leaves consistent cells.
  -- Each key keeps its cell when that lies within twice the horizon, and otherwise gets the first row
  -- that the query of the window has for it, with the value that is still to be flushed before that
  -- of the row. What is to be flushed stays as it is.
  pub slide_window-Slides :
      IsConsistent m.cells
      → stays select_box drone_pos m ≡ false
      → Slides (slide_window select_box true drone_pos m)
  slide_window-Slides consistent moved = answered-Slides answer consistent refl moved
