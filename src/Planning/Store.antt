-- ===== src/Planning/Store.antt =====
-- The planning map and its database: `open_db`, `flush_dirty_to_db` and `close_db` of
-- src/avoidance/mission_local_planning_map_sqlite.cpp. SQLite is the parameter `CellTable`; each
-- iteration of a hash map is over a list of its keys, given from outside.
use dedalus.Base.{
  ℤ, Bool, true, false, not, ◌&&◌, Option, none, some, has_value, List, [], ◌∷◌, if◌then◌else◌,
  Double, ◌≡◌,
}
use dedalus.Planning.{CellKey, Cells, create_cell, same_key}
use dedalus.Planning.Grid.{
  GridMath, MissionLocalPlanningMapConfig, MissionLocalPlanningCell, center_for_key, sigmoid,
}
use dedalus.Planning.Update.{MissionLocalPlanningMap}
use dedalus.Planning.Window.{Row, reset}

-- The statements `kUpsert`, `kVoteUpsert`, `kDelete`, the pruning of votes and `kSelectAll`. The first
-- argument of the upserts is the time; a selection that cannot be prepared has no answer.
pub record CellTable (D R : Type 0) : Type 0 where
  pub upsert_cell : ℤ → CellKey → MissionLocalPlanningCell R → D → D
  pub upsert_vote : ℤ → CellKey → D → D
  pub delete_cell : CellKey → D → D
  pub prune_votes : D → D
  pub select_all : R → D → Option (List (Row R))

-- The columns that an upsert writes.
abbrev pub row_of : {R : Type 0} → ℤ → CellKey → MissionLocalPlanningCell R → Row R
row_of now_ns key cell = record {
  key = key;
  score = cell.occupied_score;
  confidence = cell.confidence;
  log_odds = cell.log_odds;
  count = cell.source_cell_count;
  updated_ns = now_ns;
}

-- What SQL says of these statements: `read` is the row with that primary key, without its count of
-- missions.
pub record IsCellTable (D R : Type 0) (table : CellTable D R) : Type 0 where
  pub read : CellKey → D → Option (Row R)
  pub read_upsert :
      (now_ns : ℤ) (key q : CellKey) (cell : MissionLocalPlanningCell R) (db : D)
      → read q (table.upsert_cell now_ns key cell db)
        ≡ (if same_key q key then some (row_of now_ns key cell) else read q db)
  pub read_vote :
      (now_ns : ℤ) (key q : CellKey) (db : D) → read q (table.upsert_vote now_ns key db) ≡ read q db
  pub read_delete :
      (key q : CellKey) (db : D)
      → read q (table.delete_cell key db) ≡ (if same_key q key then none else read q db)
  pub read_prune : (q : CellKey) (db : D) → read q (table.prune_votes db) ≡ read q db

-- The map with its database, and whether a vote can be given: `method_id_ >= 0` and a mission id.
pub record Session (D R : Type 0) : Type 0 where
  pub map : MissionLocalPlanningMap R
  pub db : Option D
  pub votes : Bool

abbrev pub no_pending : {R : Type 0} → MissionLocalPlanningMap R → MissionLocalPlanningMap R
no_pending m = record m { dirty_cells = λ key. none; evicted_keys = λ key. false }

abbrev pub is_nil : {A : Type 0} → List A → Bool
is_nil [] = true
is_nil (x ∷ xs) = false

module _ {D R : Type 0} (table : CellTable D R) where
  abbrev pub upsert_entry : ℤ → CellKey → Option (MissionLocalPlanningCell R) → D → D
  upsert_entry now_ns key none db = db
  upsert_entry now_ns key (some cell) db = table.upsert_cell now_ns key cell db

  unfoldable pub upsert_cells :
      ℤ → List CellKey → (CellKey → Option (MissionLocalPlanningCell R)) → D → D
  upsert_cells now_ns [] dirty db = db
  upsert_cells now_ns (key ∷ keys) dirty db =
      upsert_cells now_ns keys dirty (upsert_entry now_ns key (dirty key) db)

  unfoldable pub upsert_votes : ℤ → List CellKey → D → D
  upsert_votes now_ns [] db = db
  upsert_votes now_ns (key ∷ keys) db = upsert_votes now_ns keys (table.upsert_vote now_ns key db)

  unfoldable pub delete_cells : List CellKey → D → D
  delete_cells [] db = db
  delete_cells (key ∷ keys) db = delete_cells keys (table.delete_cell key db)

  abbrev pub write_pending :
      ℤ
      → List CellKey
      → List CellKey
      → Bool
      → (CellKey → Option (MissionLocalPlanningCell R))
      → D
      → D
  write_pending now_ns to_upsert to_delete votes dirty db =
      let upserted = upsert_cells now_ns to_upsert dirty db in
      let voted = if votes then upsert_votes now_ns to_upsert upserted else upserted in
      let deleted = delete_cells to_delete voted in
      if not (is_nil to_delete) then table.prune_votes deleted else deleted

  -- `to_upsert` and `to_delete` are the keys of `dirty_cells_` and of `evicted_keys_`.
  unfoldable pub flush_dirty_to_db : ℤ → List CellKey → List CellKey → Session D R → Session D R
  flush_dirty_to_db now_ns to_upsert to_delete s = elim s.db [
    | none ↦ s
    | some db ↦ record s {
      map = no_pending s.map;
      db = some (
          if is_nil to_upsert && is_nil to_delete
          then db
          else write_pending now_ns to_upsert to_delete s.votes s.map.dirty_cells db);
    }
  ]

  unfoldable pub close_db : ℤ → List CellKey → List CellKey → Session D R → Session D R
  close_db now_ns to_upsert to_delete s = elim s.db [
    | none ↦ s
    | some _ ↦ record (flush_dirty_to_db now_ns to_upsert to_delete s) { db = none; votes = false }
  ]

module _ {R : Type 0} ⦃d : Double R⦄ ⦃g : GridMath R⦄ where
  unfoldable pub opened_cell : MissionLocalPlanningMapConfig R → Row R → MissionLocalPlanningCell R
  opened_cell config row =
      let log_odds = d.to_float row.log_odds in
      record {
        center_map = center_for_key config row.key;
        log_odds = log_odds;
        occupied_score = sigmoid log_odds;
        confidence = d.to_float row.confidence;
        source_cell_count = row.count;
        last_updated_ns = row.updated_ns;
      }

  unfoldable pub open_rows :
      MissionLocalPlanningMapConfig R
      → List (Row R)
      → Cells (MissionLocalPlanningCell R)
      → Cells (MissionLocalPlanningCell R)
  open_rows config [] s = s
  open_rows config (row ∷ rows) s =
      open_rows config rows (
        if has_value (s.index row.key) then s else create_cell row.key (opened_cell config row) 0 s)

module _ {D R : Type 0} ⦃d : Double R⦄ ⦃g : GridMath R⦄ (table : CellTable D R) where
  -- What follows `close_db`: `opened` is what `sqlite3_open` gave, with its tables in place, and
  -- `votes` whether the method's id was read.
  unfoldable pub open_file : Option D → Bool → Session D R → Session D R × Bool
  open_file none votes s = (s, false)
  open_file (some db) votes s =
      let cleared = reset s.map in
      elim (table.select_all s.map.config.min_occupied_score db) [
        | none ↦ (record { map = cleared; db = some db; votes = votes }, false)
        | some rows ↦ (
          record {
            map = record cleared { cells = open_rows s.map.config rows cleared.cells };
            db = some db;
            votes = votes;
          },
          true,
        )
      ]

  -- An open database is flushed and closed first. The file that is opened next may be the same:
  -- `sqlite3_open` is given what the closed database holds.
  unfoldable pub open_db :
      ℤ
      → List CellKey
      → List CellKey
      → (Option D → Option D)
      → Bool
      → Session D R
      → Session D R × Bool
  unfolding open_file
  open_db now_ns to_upsert to_delete sqlite3_open votes s =
      open_file (sqlite3_open (flush_dirty_to_db table now_ns to_upsert to_delete s).db) votes
        (close_db table now_ns to_upsert to_delete s)
