-- ===== src/Examples/Map.antt =====
-- Concrete runs of the planning map: cells of one and two metres.
use dedalus.Base.{
  ℤ, pos, negsuc, ℕ, zero, suc, ◌+◌, true, false, Option, none, some, List, [], ◌∷◌, ◌*◌, has_value,
  if◌then◌else◌, ◌≡◌, refl, subst, In, ◌⊎◌, ◌↔◌, arith,
}
use dedalus.Base.Fixed.{fixed, unit, div_fixed, Fixed-IsIeee}
use dedalus.Mission.{Vec3}
use dedalus.Planning.{
  BucketKey, CellKey, Cells, StoredCell, bucket_for_cell_key, create_cell, floor_div_pos,
  same_bucket, same_key, set_bucket,
}
use dedalus.Planning.Places.{IsConsistent, lookup}
use dedalus.Planning.Creation.{create_cell-IsConsistent}
use dedalus.Planning.Grid.{
  GridMath, MissionLocalPlanningCell, MissionLocalPlanningMapConfig, center_for_key, key_for_point,
  sigmoid,
}
use dedalus.Planning.Update.{
  MissionLocalPlanningMap, MissionLocalTraversabilityCell, TraversabilityCellState, has_key,
  no_stats, update_from_traversability, merge_cells, merge_cell, merge_occupied, hit_cells, find,
  first_hit,
}
use dedalus.Planning.Refinement.{Updates, update_from_traversability-Updates}
use dedalus.Planning.Opening.{Opens, no_cells-IsConsistent, open_db-Opens}
use dedalus.Planning.Window.{Row, no_cells, slide_window, snapshot}
use dedalus.Planning.Sliding.{Slides, slide_window-Slides}
use dedalus.Planning.Store.{
  CellTable, IsCellTable, Session, flush_dirty_to_db, open_db, row_of, write_pending,
}
use dedalus.Planning.Flush.{Flushes, flush_dirty_to_db-Flushes}
use dedalus.Planning.Elements.{Has}
use dedalus.Planning.Streaming.{snapshot-Complete}
use dedalus.Planning.Query.{Bounds3, occupied_cells_in_box}
use dedalus.Planning.Ranges.{AtMost}
use dedalus.Planning.Scan.{IsCentred, IsMonotone, occupied_cells_in_box-Scan, scan_box}

instance abbrev fixed_math : GridMath ℤ
fixed_math = record { floor_int = λ a. floor_div_pos a 1_000_000; exp = λ a. pos unit }

-- A thousandth.
abbrev milli : ℕ → ℤ
milli n = pos (n * 1000)

abbrev point : ℕ → ℕ → ℕ → Vec3 ℤ
point x y z = record { x = milli x; y = milli y; z = milli z }

abbrev config : MissionLocalPlanningMapConfig ℤ
config = record {
  cell_size_m = milli 1000;
  vertical_cell_size_m = milli 2000;
  min_occupied_score = milli 500;
  log_odds_occupied_increment = milli 847;
  log_odds_free_decrement = milli 2197;
  log_odds_max = milli 8000;
  log_odds_eviction_threshold = pos 0;
  horizon_m = milli 150_000;
}

abbrev key_at : ℕ → CellKey
key_at n = record { x = pos n; y = pos 0; z = pos 2 }

abbrev cell_at : ℕ → MissionLocalPlanningCell ℤ
cell_at n = record {
  center_map = point (n * 1000 + 500) 500 5000;
  log_odds = milli 900;
  occupied_score = milli 700;
  confidence = milli 800;
  source_cell_count = 3;
  last_updated_ns = pos 5;
}

abbrev map_with : Cells (MissionLocalPlanningCell ℤ) → MissionLocalPlanningMap ℤ
map_with cells = record {
  config = config;
  last_update_stats = no_stats;
  cells = cells;
  dirty_cells = λ q. if same_key q (key_at 1) then some (cell_at 1) else none;
  evicted_keys = λ q. same_key q (key_at 2);
  last_slide_pos = point 0 0 0;
  slide_initialized = false;
  map_seq = 4;
}

abbrev one : Cells (MissionLocalPlanningCell ℤ)
one = create_cell (key_at 1) (cell_at 1) 4 no_cells

one-IsConsistent : IsConsistent one
one-IsConsistent =
    (create_cell-IsConsistent no_cells no_cells-IsConsistent (key_at 1) (cell_at 1) 4 refl).0

-- A hit and a free observation of the first cell, and a hit of a new one.
abbrev source : List (MissionLocalTraversabilityCell ℤ)
source =
    record {
      center_map = point 1200 300 4100;
      state = TraversabilityCellState.occupied;
      occupied_score = milli 900;
      confidence = milli 800;
    }
    ∷ record {
      center_map = point 1700 700 5900;
      state = TraversabilityCellState.observed_free;
      occupied_score = milli 100;
      confidence = milli 900;
    }
    ∷ record {
      center_map = point 7500 300 4100;
      state = TraversabilityCellState.mixed;
      occupied_score = milli 900;
      confidence = milli 800;
    }
    ∷ []

update_from_traversability-Updates_example :
    Updates (map_with one) (pos 9) source (update_from_traversability (pos 9) source (map_with one))
update_from_traversability-Updates_example =
    update_from_traversability-Updates (map_with one) (pos 9) source one-IsConsistent

abbrev row : ℕ → Row ℤ
row n = row_of (pos 7) (key_at n) (cell_at n)

abbrev answer : CellKey → CellKey → ℤ → Option (List (Row ℤ))
answer low high score = some (row 900 ∷ row 1 ∷ [])

slide_window-Slides_example :
    Slides answer
      (map_with one)
      (point 900_000 0 0)
      (slide_window answer true (point 900_000 0 0) (map_with one))
slide_window-Slides_example =
    slide_window-Slides answer (map_with one) (point 900_000 0 0) one-IsConsistent refl

-- A table as the function that reads it.
abbrev Table : Type 0
Table = CellKey → Option (Row ℤ)

abbrev table : CellTable Table ℤ
table = record {
  upsert_cell =
      λ now_ns key cell db q. if same_key q key then some (row_of now_ns key cell) else db q;
  upsert_vote = λ now_ns key db. db;
  delete_cell = λ key db q. if same_key q key then none else db q;
  prune_votes = λ db. db;
  select_all = λ score db. some (row 3 ∷ row 4 ∷ []);
}

table-IsCellTable : IsCellTable Table ℤ table
table-IsCellTable = record {
  read = λ q db. db q;
  read_upsert = λ now_ns key q cell db. refl;
  read_vote = λ now_ns key q db. refl;
  read_delete = λ key q db. refl;
  read_prune = λ q db. refl;
}

abbrev session : Session Table ℤ
session = record { map = map_with one; db = some (λ q. none); votes = true }

lists_dirty : (q : CellKey) → has_key q (key_at 1 ∷ []) ≡ has_value (session.map.dirty_cells q)
unfolding has_key
lists_dirty q = ground arith

lists_evicted : (q : CellKey) → has_key q (key_at 2 ∷ []) ≡ session.map.evicted_keys q
unfolding has_key
lists_evicted q = ground arith

flush_dirty_to_db-Flushes_example :
    Flushes table table-IsCellTable
      (pos 9)
      session
      (λ q. none)
      (flush_dirty_to_db table (pos 9) (key_at 1 ∷ []) (key_at 2 ∷ []) session)
flush_dirty_to_db-Flushes_example =
    flush_dirty_to_db-Flushes table table-IsCellTable (pos 9) (key_at 1 ∷ []) (key_at 2 ∷ [])
      session (λ q. none) refl lists_dirty lists_evicted

-- The file that was open is opened again.
abbrev written : Table
written =
    write_pending table (pos 9) (key_at 1 ∷ []) (key_at 2 ∷ []) true session.map.dirty_cells
      (λ q. none)

reopened :
    (flush_dirty_to_db table (pos 9) (key_at 1 ∷ []) (key_at 2 ∷ []) session).db ≡ some written
unfolding flush_dirty_to_db
reopened = refl

open_db-Opens_example :
    ((open_db table (pos 9) (key_at 1 ∷ []) (key_at 2 ∷ []) (λ file. file) true session).1 ≡ true)
    × Opens table session
        (row 3 ∷ row 4 ∷ [])
        written
        (open_db table (pos 9) (key_at 1 ∷ []) (key_at 2 ∷ []) (λ file. file) true session).0
open_db-Opens_example =
    open_db-Opens table (pos 9) (key_at 1 ∷ []) (key_at 2 ∷ []) (λ file. file) true session written
      (row 3 ∷ row 4 ∷ []) reopened refl

-- The first hit of a new cell, in an empty map.
abbrev hit : List (MissionLocalTraversabilityCell ℤ)
hit =
    record {
      center_map = point 7500 300 4100;
      state = TraversabilityCellState.mixed;
      occupied_score = milli 900;
      confidence = milli 800;
    }
    ∷ []

abbrev hit_map : MissionLocalPlanningMap ℤ
hit_map = update_from_traversability (pos 9) hit (map_with no_cells)

abbrev hit_cell : StoredCell (MissionLocalPlanningCell ℤ)
hit_cell = record {
  key = key_at 7;
  cell = record {
    center_map = point 7500 500 5000;
    log_odds = pos 677_600;
    occupied_score = pos 500_000;
    confidence = milli 800;
    source_cell_count = 1;
    last_updated_ns = pos 9;
  };
  write_seq = 5;
}

hit_there : Has hit_map.cells.cells hit_cell
unfolding update_from_traversability merge_cells merge_cell merge_occupied hit_cells find
    create_cell key_for_point first_hit center_for_key sigmoid floor_div_pos
hit_there = (0, refl)

snapshot-Complete_example :
    In hit_cell.cell (snapshot 4 hit_map).cells
    ⊎ (lookup (key_at 7) (map_with no_cells).cells ≡ some hit_cell.cell)
snapshot-Complete_example =
    snapshot-Complete ⦃ieee = Fixed-IsIeee⦄ (map_with no_cells) (pos 9) hit 4 hit_cell
      no_cells-IsConsistent (omega arith) (omega arith) hit_there

abbrev bbox : Bounds3 ℤ
bbox = record { low = point 0 0 4000; high = point 2000 1000 6000 }

abbrev members : BucketKey → List CellKey
members b = if same_bucket b (bucket_for_cell_key (key_at 1)) then key_at 1 ∷ [] else []

members_lists : (b : BucketKey) (key : CellKey) → has_key key (members b) ≡ one.buckets b key
unfolding has_key create_cell set_bucket
members_lists b key = ground arith

one-IsCentred : IsCentred config one
unfolding create_cell key_for_point floor_div_pos
one-IsCentred sc (zero, at) =
    subst (λ x. key_for_point config x.cell.center_map ≡ x.key) (stored_same at) refl
  where
    stored_same :
        some (record { key = key_at 1; cell = cell_at 1; write_seq = 4 }) ≡ some sc
        → record { key = key_at 1; cell = cell_at 1; write_seq = 4 } ≡ sc
    stored_same e = ground (arith, e)
one-IsCentred sc (suc i, at) = absurd (ground (arith, at))

floor_mono : (a b : ℤ) → AtMost a b → AtMost (floor_div_pos a 1_000_000) (floor_div_pos b 1_000_000)
unfolding floor_div_pos
floor_mono (pos a) (pos b) h = ground (arith, h)
floor_mono (pos a) (negsuc b) h = ground (arith, h)
floor_mono (negsuc a) (pos b) h = ground (arith, h)
floor_mono (negsuc a) (negsuc b) h = ground (arith, h)

metre_mono : (a b : ℤ) → AtMost a b → AtMost (div_fixed a (milli 1000)) (div_fixed b (milli 1000))
metre_mono (pos a) (pos b) h = ground (arith, h)
metre_mono (pos a) (negsuc b) h = ground (arith, h)
metre_mono (negsuc a) (pos b) h = ground (arith, h)
metre_mono (negsuc a) (negsuc b) h = ground (arith, h)

two_metres_mono :
    (a b : ℤ) → AtMost a b → AtMost (div_fixed a (milli 2000)) (div_fixed b (milli 2000))
two_metres_mono (pos a) (pos b) h = ground (arith, h)
two_metres_mono (pos a) (negsuc b) h = ground (arith, h)
two_metres_mono (negsuc a) (pos b) h = ground (arith, h)
two_metres_mono (negsuc a) (negsuc b) h = ground (arith, h)

le-AtMost : (a b : ℤ) → fixed.le a b ≡ true → AtMost a b
le-AtMost a b h = ground (arith, h)

math-IsMonotone : IsMonotone config
math-IsMonotone = record {
  horizontal = λ a b h.
      floor_mono (div_fixed a (milli 1000)) (div_fixed b (milli 1000))
        (metre_mono a b (le-AtMost a b h));
  vertical = λ a b h.
      floor_mono (div_fixed a (milli 2000)) (div_fixed b (milli 2000))
        (two_metres_mono a b (le-AtMost a b h));
}

occupied_cells_in_box-Scan_example :
    In
      (record { key = key_at 1; cell = cell_at 1; write_seq = 4 })
      (occupied_cells_in_box config bbox members one)
    ↔ In
        (record { key = key_at 1; cell = cell_at 1; write_seq = 4 })
        (scan_box config bbox one.cells)
occupied_cells_in_box-Scan_example =
    occupied_cells_in_box-Scan config bbox one members one-IsConsistent members_lists one-IsCentred
      math-IsMonotone (record { key = key_at 1; cell = cell_at 1; write_seq = 4 })
