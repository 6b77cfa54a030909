-- ===== src/Planning/Flush.antt =====
-- What a flush writes to the database.
use dedalus.Base.{
  ℤ, Bool, true, false, ◌&&◌, Option, none, some, has_value, List, [], ◌∷◌, if◌then◌else◌, ◌||◌,
  ◌≡◌, refl, ap, subst, ◌∙◌, arith,
}
use dedalus.Planning.{CellKey, same_key, same_key-true}
use dedalus.Planning.Grid.{MissionLocalPlanningCell}
use dedalus.Planning.Update.{has_key}
use dedalus.Planning.Window.{Row}
use dedalus.Planning.Store.{
  CellTable, IsCellTable, Session, delete_cells, upsert_entry, flush_dirty_to_db, is_nil, row_of,
  upsert_cells, upsert_votes, write_pending,
}

module _ {D R : Type 0} (table : CellTable D R) (sql : IsCellTable D R table) where
  -- The row of a key once everything pending is written.
  abbrev pub fresh_row :
      ℤ → CellKey → Option (MissionLocalPlanningCell R) → Option (Row R) → Option (Row R)
  fresh_row now_ns q none old = old
  fresh_row now_ns q (some cell) old = some (row_of now_ns q cell)

  entry_row :
      (now_ns : ℤ) (key q : CellKey) (o : Option (MissionLocalPlanningCell R)) (db : D)
      → sql.read q (upsert_entry table now_ns key o db)
        ≡ (if same_key q key then fresh_row now_ns key o (sql.read q db) else sql.read q db)
  entry_row now_ns key q none db = ground arith
  entry_row now_ns key q (some cell) db = sql.read_upsert now_ns key q cell db

  upserted_row :
      (now_ns : ℤ) (keys : List CellKey) (dirty : CellKey → Option (MissionLocalPlanningCell R))
      (q : CellKey) (db : D)
      → sql.read q (upsert_cells table now_ns keys dirty db)
        ≡ (if has_key q keys then fresh_row now_ns q (dirty q) (sql.read q db) else sql.read q db)
  unfolding upsert_cells has_key
  upserted_row now_ns [] dirty q db = refl
  upserted_row now_ns (key ∷ keys) dirty q db =
      upserted_row now_ns keys dirty q (upsert_entry table now_ns key (dirty key) db)
      ∙ twice (has_key q keys) (same_key q key) refl (dirty q) refl
          (sql.read q (upsert_entry table now_ns key (dirty key) db))
          (entry_row now_ns key q (dirty key) db)
    where
      again :
          (later : Bool) (o : Option (MissionLocalPlanningCell R))
          → (if later
              then fresh_row now_ns q o (fresh_row now_ns q o (sql.read q db))
              else fresh_row now_ns q o (sql.read q db))
            ≡ fresh_row now_ns q o (sql.read q db)
      again false o = refl
      again true none = refl
      again true (some cell) = refl

      twice :
          (later here : Bool)
          → same_key q key ≡ here
          → (o : Option (MissionLocalPlanningCell R)) → dirty q ≡ o
          → (row : Option (Row R))
          → row ≡ (
              if same_key q key
              then fresh_row now_ns key (dirty key) (sql.read q db)
              else sql.read q db)
          → (if later then fresh_row now_ns q o row else row)
            ≡ (if here || later then fresh_row now_ns q o (sql.read q db) else sql.read q db)
      twice later false h o e row r =
          ap (λ x. if later then fresh_row now_ns q o x else x) (r ∙ rw h refl)
      twice later true h o e row r =
          let e_key : dirty key ≡ o = subst (λ x. dirty x ≡ o) (same_key-true q key h) e in
          let r_key : row ≡ fresh_row now_ns q o (sql.read q db) =
            r ∙ rw (h, e_key, ← same_key-true q key h) refl in
          ap (λ x. if later then fresh_row now_ns q o x else x) r_key ∙ again later o

  voted_row :
      (now_ns : ℤ) (keys : List CellKey) (q : CellKey) (db : D)
      → sql.read q (upsert_votes table now_ns keys db) ≡ sql.read q db
  unfolding upsert_votes
  voted_row now_ns [] q db = refl
  voted_row now_ns (key ∷ keys) q db = ground (
    arith,
    voted_row now_ns keys q (table.upsert_vote now_ns key db),
    sql.read_vote now_ns key q db,
  )

  deleted_row :
      (keys : List CellKey) (q : CellKey) (db : D)
      → sql.read q (delete_cells table keys db) ≡ (if has_key q keys then none else sql.read q db)
  unfolding delete_cells has_key
  deleted_row [] q db = refl
  deleted_row (key ∷ keys) q db =
      ground (arith, deleted_row keys q (table.delete_cell key db), sql.read_delete key q db)

  -- `t` is the session after a flush of `s`, whose database was `db`.
  pub record Flushes (now_ns : ℤ) (s : Session D R) (db : D) (t : Session D R) : Type 0 where
    pub db_after : D
    pub still_open : t.db ≡ some db_after
    pub rows :
        (q : CellKey)
        → sql.read q db_after ≡ (
            if s.map.evicted_keys q
            then none
            else fresh_row now_ns q (s.map.dirty_cells q) (sql.read q db))
    pub nothing_left : (q : CellKey) → (t.map.dirty_cells q ≡ none) × (t.map.evicted_keys q ≡ false)
    pub cells_same : t.map.cells ≡ s.map.cells

  module _ (now_ns : ℤ) (to_upsert to_delete : List CellKey)
      (dirty : CellKey → Option (MissionLocalPlanningCell R)) (evicted : CellKey → Bool)
      (lists_dirty : (q : CellKey) → has_key q to_upsert ≡ has_value (dirty q))
      (lists_evicted : (q : CellKey) → has_key q to_delete ≡ evicted q) (db : D) where
    listed_row :
        (q : CellKey) (o : Option (MissionLocalPlanningCell R))
        → dirty q ≡ o
        → sql.read q (upsert_cells table now_ns to_upsert dirty db)
          ≡ fresh_row now_ns q (dirty q) (sql.read q db)
    listed_row q none e = ground (arith, upserted_row now_ns to_upsert dirty q db, lists_dirty q, e)
    listed_row q (some c) e =
        ground (arith, upserted_row now_ns to_upsert dirty q db, lists_dirty q, e)

    written_rows :
        (votes : Bool) (q : CellKey)
        → sql.read q (write_pending table now_ns to_upsert to_delete votes dirty db)
          ≡ (if evicted q then none else fresh_row now_ns q (dirty q) (sql.read q db))
    written_rows votes q = ground (
      arith,
      listed_row q (dirty q) refl,
      voted_row now_ns to_upsert q (upsert_cells table now_ns to_upsert dirty db),
      deleted_row to_delete q (upsert_cells table now_ns to_upsert dirty db),
      deleted_row to_delete q
          (upsert_votes table now_ns to_upsert (upsert_cells table now_ns to_upsert dirty db)),
      lists_evicted q,
      sql.read_prune q
          (delete_cells table to_delete (upsert_cells table now_ns to_upsert dirty db)),
      sql.read_prune q (
          delete_cells table to_delete
            (upsert_votes table now_ns to_upsert (upsert_cells table now_ns to_upsert dirty db))),
    )

    nothing_listed :
        (keys : List CellKey) (q : CellKey) → is_nil keys ≡ true → has_key q keys ≡ false
    unfolding has_key
    nothing_listed [] q h = refl
    nothing_listed (key ∷ keys) q h = absurd (ground (arith, h))

    unwritten_rows :
        (q : CellKey)
        → is_nil to_upsert && is_nil to_delete ≡ true
        → sql.read q db ≡ (if evicted q then none else fresh_row now_ns q (dirty q) (sql.read q db))
    unwritten_rows q h =
        let no_dirty = nothing_listed to_upsert q (ground (arith, h)) in
        let no_evicted = nothing_listed to_delete q (ground (arith, h)) in
        ground (arith, lists_dirty q, lists_evicted q, no_dirty, no_evicted)

    flushed_rows :
        (votes nothing : Bool) (q : CellKey)
        → is_nil to_upsert && is_nil to_delete ≡ nothing
        → sql.read q
            (if nothing then db else write_pending table now_ns to_upsert to_delete votes dirty db)
          ≡ (if evicted q then none else fresh_row now_ns q (dirty q) (sql.read q db))
    flushed_rows votes true q h = unwritten_rows q h
    flushed_rows votes false q h = written_rows votes q

  -- A flush with an open database, over the keys of the dirty cells and of the evicted keys in any
  -- order, leaves no row for an evicted key, also when the key has a dirty cell; it writes every other
  -- dirty cell to its row, and keeps every other row. Nothing is left to be flushed, and the cells in
  -- memory stay.
  pub flush_dirty_to_db-Flushes :
      (now_ns : ℤ) (to_upsert to_delete : List CellKey) (s : Session D R) (db : D)
      → s.db ≡ some db
      → ((q : CellKey) → has_key q to_upsert ≡ has_value (s.map.dirty_cells q))
      → ((q : CellKey) → has_key q to_delete ≡ s.map.evicted_keys q)
      → Flushes now_ns s db (flush_dirty_to_db table now_ns to_upsert to_delete s)
  unfolding flush_dirty_to_db
  flush_dirty_to_db-Flushes now_ns to_upsert to_delete s db e lists_dirty lists_evicted =
      rw (e, flush_dirty_to_db)
        (record {
          db_after =
              if is_nil to_upsert && is_nil to_delete
              then db
              else write_pending table now_ns to_upsert to_delete s.votes s.map.dirty_cells db;
          still_open = refl;
          rows = λ q.
              flushed_rows now_ns to_upsert to_delete s.map.dirty_cells s.map.evicted_keys
                lists_dirty lists_evicted db s.votes (is_nil to_upsert && is_nil to_delete) q refl;
          nothing_left = λ q. (refl, refl);
          cells_same = refl;
        })
