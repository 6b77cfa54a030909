-- ===== src/Planning/Opening.antt =====
-- What the map holds, and what a snapshot shows of it, once a database has been opened.
use dedalus.Base.{
  ℤ, ℕ, Bool, true, false, Option, none, some, has_value, List, [], ◌∷◌, ◌++◌, ltb, if◌then◌else◌,
  Double, ◌≡◌, refl, ap, ◌∙◌, arith,
}
use dedalus.Planning.{CellKey, Cells, StoredCell, create_cell, same_key}
use dedalus.Planning.Places.{IsConsistent, lookup}
use dedalus.Planning.Missing.{Adds, missing-Adds, or_else, or_else_assoc, or_else_if}
use dedalus.Planning.Grid.{
  GridMath, MissionLocalPlanningMapConfig, MissionLocalPlanningCell, center_for_key, sigmoid,
}
use dedalus.Planning.Window.{Row, no_cells, reset, snapshot, written_after}
use dedalus.Planning.Store.{
  CellTable, Session, close_db, flush_dirty_to_db, no_pending, open_db, open_file, open_rows,
  opened_cell,
}

pub no_cells-IsConsistent : {C : Type 0} → IsConsistent (no_cells {C = C})
no_cells-IsConsistent = record {
  found = λ key i h. absurd (ground (arith, h));
  indexed = λ i c h. absurd (ground (arith, h));
  bucketed = λ b key. refl;
}

pub written_after-append :
    {R : Type 0} (since_seq : ℕ) (cells : List (StoredCell (MissionLocalPlanningCell R)))
    (sc : StoredCell (MissionLocalPlanningCell R))
    → written_after since_seq (cells ++ (sc ∷ []))
      ≡ written_after since_seq cells ++ (if ltb since_seq sc.write_seq then sc.cell ∷ [] else [])
unfolding written_after
written_after-append since_seq [] sc = ground arith
written_after-append since_seq (c ∷ cells) sc =
    ground (arith, written_after-append since_seq cells sc)

module _ {R : Type 0} ⦃d : Double R⦄ ⦃g : GridMath R⦄
    (config : MissionLocalPlanningMapConfig R) where
  -- What a row becomes: its score is computed again from its log-odds.
  abbrev pub restored : Row R → MissionLocalPlanningCell R
  restored row = record {
    center_map = center_for_key config row.key;
    log_odds = d.to_float row.log_odds;
    occupied_score = sigmoid (d.to_float row.log_odds);
    confidence = d.to_float row.confidence;
    source_cell_count = row.count;
    last_updated_ns = row.updated_ns;
  }

  -- The cell of the first row with the key.
  abbrev pub first_row : CellKey → List (Row R) → Option (MissionLocalPlanningCell R)
  first_row q [] = none
  first_row q (row ∷ rows) = if same_key q row.key then some (restored row) else first_row q rows

  opened_row :
      (row : Row R) (s : Cells (MissionLocalPlanningCell R))
      → IsConsistent s
      → written_after 0 s.cells ≡ []
      → (m : Option ℕ) → s.index row.key ≡ m
      → written_after 0
          (if has_value m then s else create_cell row.key (opened_cell config row) 0 s).cells
        ≡ []
  unfolding create_cell
  opened_row row s consistent early none e = ground (
    arith,
    written_after-append 0 s.cells
        (record { key = row.key; cell = opened_cell config row; write_seq = 0 }),
    early,
  )
  opened_row row s consistent early (some i) e = early

  opened_rows :
      (rows : List (Row R)) (s : Cells (MissionLocalPlanningCell R))
      → IsConsistent s
      → written_after 0 s.cells ≡ []
      → IsConsistent (open_rows config rows s)
        × ((q : CellKey)
            → lookup q (open_rows config rows s) ≡ or_else (lookup q s) (first_row q rows))
        × (written_after 0 (open_rows config rows s).cells ≡ [])
  unfolding open_rows Adds opened_cell
  opened_rows [] s consistent early = (consistent, λ q. no_row (lookup q s), early)
    where
      no_row : (o : Option (MissionLocalPlanningCell R)) → o ≡ or_else o none
      no_row none = refl
      no_row (some c) = refl
  opened_rows (row ∷ rows) s consistent early =
      let cell = opened_cell config row in
      let (ok, looks) = missing-Adds s consistent row.key cell 0 (s.index row.key) refl in
      let (all_ok, all_looks, all_early) =
        opened_rows rows (if has_value (s.index row.key) then s else create_cell row.key cell 0 s)
          ok (opened_row row s consistent early (s.index row.key) refl) in
      (
        all_ok,
        λ q.
            all_looks q
            ∙ ap (λ o. or_else o (first_row q rows)) (looks q)
            ∙ or_else_assoc (lookup q s) _ (first_row q rows)
            ∙ ap (or_else (lookup q s)) (or_else_if (same_key q row.key) cell (first_row q rows)),
        all_early,
      )

module _ {D R : Type 0} ⦃d : Double R⦄ ⦃g : GridMath R⦄ (table : CellTable D R) where
  -- `t` is the session after a database with these rows was opened.
  pub record Opens (s : Session D R) (rows : List (Row R)) (db : D) (t : Session D R) : Type 0 where
    pub consistent : IsConsistent t.map.cells
    pub cell : (q : CellKey) → lookup q t.map.cells ≡ first_row s.map.config q rows
    pub snapshot_empty : (snapshot 0 t.map).cells ≡ []
    pub holds : t.db ≡ some db
    pub dirty :
        (q : CellKey) → t.map.dirty_cells q ≡ (if has_value s.db then none else s.map.dirty_cells q)
    pub evicted :
        (q : CellKey)
        → t.map.evicted_keys q ≡ (if has_value s.db then false else s.map.evicted_keys q)

  -- The map that is opened into: the pending writes are flushed where a database was open.
  closed_map :
      (now_ns : ℤ) (to_upsert to_delete : List CellKey) (s : Session D R) (m : Option D)
      → s.db ≡ m
      → (close_db table now_ns to_upsert to_delete s).map
        ≡ (if has_value m then no_pending s.map else s.map)
  unfolding close_db flush_dirty_to_db
  closed_map now_ns to_upsert to_delete s none e = rw e refl
  closed_map now_ns to_upsert to_delete s (some db) e = rw e refl

  file_opened :
      (s : Session D R) (db : D) (votes : Bool) (rows : List (Row R))
      → table.select_all s.map.config.min_occupied_score db ≡ some rows
      → ((open_file table (some db) votes s).1 ≡ true)
        × IsConsistent (open_file table (some db) votes s).0.map.cells
        × ((q : CellKey)
            → lookup q (open_file table (some db) votes s).0.map.cells
              ≡ first_row s.map.config q rows)
        × ((snapshot 0 (open_file table (some db) votes s).0.map).cells ≡ [])
        × ((open_file table (some db) votes s).0.db ≡ some db)
        × ((open_file table (some db) votes s).0.map.dirty_cells ≡ s.map.dirty_cells)
        × ((open_file table (some db) votes s).0.map.evicted_keys ≡ s.map.evicted_keys)
  unfolding open_file reset snapshot written_after
  file_opened s db votes rows e =
      let (ok, looks, early) = opened_rows s.map.config rows no_cells no_cells-IsConsistent refl in
      rw (e, open_file) (refl, ok, looks, early, refl, refl, refl)

  -- Opening a database whose rows are selected leaves consistent cells: each key has the cell of its
  -- first row. The full snapshot of the map then has no cell at all, since the cells were never
  -- written by an update. A database that was open before is flushed first, so that nothing is pending
  -- after, also where the same file is opened again; without one, what was pending stays pending.
  pub open_db-Opens :
      (now_ns : ℤ) (to_upsert to_delete : List CellKey) (sqlite3_open : Option D → Option D)
      (votes : Bool) (s : Session D R) (db : D) (rows : List (Row R))
      → sqlite3_open (flush_dirty_to_db table now_ns to_upsert to_delete s).db ≡ some db
      → table.select_all s.map.config.min_occupied_score db ≡ some rows
      → (((open_db table now_ns to_upsert to_delete sqlite3_open votes s).1 ≡ true)
          × Opens s rows db (open_db table now_ns to_upsert to_delete sqlite3_open votes s).0)
  unfolding open_db
  open_db-Opens now_ns to_upsert to_delete sqlite3_open votes s db rows o e =
      rw o (opens (closed_map now_ns to_upsert to_delete s s.db refl))
    where
      closed : Session D R
      closed = close_db table now_ns to_upsert to_delete s

      opens :
          closed.map ≡ (if has_value s.db then no_pending s.map else s.map)
          → (((open_file table (some db) votes closed).1 ≡ true)
              × Opens s rows db (open_file table (some db) votes closed).0)
      opens c =
          let (done, ok, looks, early, holds, dirty, evicted) =
            file_opened closed db votes rows (ground (arith, c, e)) in
          (
            done,
            record {
              consistent = ok;
              cell = λ q. ground (arith, c, looks q);
              snapshot_empty = early;
              holds = holds;
              dirty = λ q. ground (arith, c, dirty);
              evicted = λ q. ground (arith, c, evicted);
            },
          )
