-- ===== src/Planning/Merging.antt =====
-- Each round of the update's loop against the view per key.
use dedalus.Base.{
  ℤ, ℕ, ◌+◌, Bool, true, false, not, ◌&&◌, Option, none, some, [], ◌∷◌, ◌++◌, if◌then◌else◌, Double,
  ◌≡◌, refl, ap, sym, subst, ◌∙◌, ◌⊎◌, inl, arith,
}
use dedalus.Planning.{CellKey, StoredCell, same_key, same_key_refl, same_key-true}
use dedalus.Planning.Places.{IsConsistent, lookup}
use dedalus.Planning.Creation.{create_cell-IsConsistent}
use dedalus.Planning.Grid.{
  GridMath, MissionLocalPlanningMapConfig, MissionLocalPlanningCell, key_for_point,
}
use dedalus.Planning.Stores.{IsFound, find-none, find-some, store-IsConsistent, store-lookup}
use dedalus.Planning.Update.{
  MissionLocalTraversabilityCell, Updating, apply_free, clear, find, free_found, has_key, hit_cells,
  is_free, is_occupied, is_cleared, first_hit, merge_cell, merge_dirty, merge_occupied, reinforce,
  store, weaken,
}
use dedalus.Planning.Evidence.{KeyState, fade, has_key-append, hit, merge_dirty-append, observe}

module _ {R : Type 0} ⦃d : Double R⦄ ⦃g : GridMath R⦄
    (dirty : CellKey → Option (MissionLocalPlanningCell R)) where
  -- The locals of the update agree with the state of one key.
  pub record Agrees (u : Updating R) (q : CellKey) (k : KeyState R) : Type 0 where
    pub cell : lookup q u.cells ≡ k.cell
    pub dirty_entry : merge_dirty u.local_dirty dirty q ≡ k.dirty
    pub cleared : has_key q u.local_evicted ≡ k.cleared

  pub record IsUpdating (u : Updating R) : Type 0 where
    pub consistent : IsConsistent u.cells
    pub flagged : (u.any_evicted ≡ true) ⊎ (u.local_evicted ≡ [])

  -- `t` follows `u`, and each key's state changes by `f` when it is `key`.
  pub record Follows (u : Updating R) (key : CellKey) (f : KeyState R → KeyState R) (t : Updating R)
      : Type 0 where
    pub updating : IsUpdating t
    pub agrees :
        (q : CellKey) (k : KeyState R)
        → Agrees u q k
        → Agrees t q (if same_key q key then f k else k)

  Follows-cases :
      (u : Updating R) (key : CellKey) (f : KeyState R → KeyState R) (t : Updating R)
      → IsUpdating t
      → ((k : KeyState R) → Agrees u key k → Agrees t key (f k))
      → ((q : CellKey) (k : KeyState R) → same_key q key ≡ false → Agrees u q k → Agrees t q k)
      → Follows u key f t
  Follows-cases u key f t updating here elsewhere = record {
    updating = updating;
    agrees = λ q k a. at_key q k (same_key q key) refl a;
  }
    where
      at_key :
          (q : CellKey) (k : KeyState R) (is_key : Bool)
          → same_key q key ≡ is_key
          → Agrees u q k
          → Agrees t q (if is_key then f k else k)
      at_key q k true e a =
          subst (λ x. Agrees u x k → Agrees t x (f k)) (sym (same_key-true q key e)) (here k) a
      at_key q k false e a = elsewhere q k e a

  module _ (config : MissionLocalPlanningMapConfig R) (now_ns : ℤ) (map_seq : ℕ) (key : CellKey)
      (l1 : MissionLocalTraversabilityCell R) (u : Updating R) (h : IsUpdating u) where
    hit-lookup :
        (m : Option (ℕ × StoredCell (MissionLocalPlanningCell R)))
        → find key u.cells ≡ m
        → IsConsistent (hit_cells config now_ns map_seq key l1 m u.cells)
          × ((q : CellKey)
              → lookup q (hit_cells config now_ns map_seq key l1 m u.cells) ≡ (
                  if same_key q key
                  then some (hit config now_ns key l1 (lookup key u.cells))
                  else lookup q u.cells))
    unfolding hit_cells
    hit-lookup none e =
        let (fresh, gone) = find-none u.cells h.consistent key e in
        let (ok, looks) =
          create_cell-IsConsistent u.cells h.consistent key (first_hit config now_ns key l1) map_seq
            fresh in
        (ok, λ q. ground (arith, gone, looks q))
    hit-lookup (some (i, sc)) e =
        let f = find-some u.cells h.consistent key i sc e in
        let t : StoredCell (MissionLocalPlanningCell R) = record sc {
          cell = reinforce config now_ns l1 sc.cell;
          write_seq = map_seq;
        } in
        (
          store-IsConsistent u.cells h.consistent key i sc f t f.key_same,
          λ q.
              ground
                (arith, f.lookup_same, store-lookup u.cells h.consistent key i sc f t f.key_same q),
        )

    abbrev struck : KeyState R → KeyState R
    struck k = record k {
      cell = some (hit config now_ns key l1 k.cell);
      dirty = some (hit config now_ns key l1 k.cell);
    }

    struck_dirty :
        lookup key (hit_cells config now_ns map_seq key l1 (find key u.cells) u.cells)
        ≡ some (hit config now_ns key l1 (lookup key u.cells))
    struck_dirty = ground (arith, (hit-lookup (find key u.cells) refl).1 key, same_key_refl key)

    pub occupied-Follows : Follows u key struck (merge_occupied config now_ns map_seq key l1 u)
    unfolding merge_occupied
    occupied-Follows =
        Follows-cases u key struck (merge_occupied config now_ns map_seq key l1 u)
          (record { consistent = (hit-lookup (find key u.cells) refl).0; flagged = h.flagged })
          (λ k a. record {
            cell = struck_dirty ∙ ap (λ o. some (hit config now_ns key l1 o)) a.cell;
            dirty_entry = rw (struck_dirty, merge_dirty-append, same_key_refl, a.cell) refl;
            cleared = a.cleared;
          })
          (λ q k e a. record {
            cell = ground (arith, (hit-lookup (find key u.cells) refl).1 q, e, a.cell);
            dirty_entry = rw (struck_dirty, merge_dirty-append, e) a.dirty_entry;
            cleared = a.cleared;
          })

    -- The two branches for a cell that is there.
    abbrev faded : (i : ℕ) (sc : StoredCell (MissionLocalPlanningCell R)) → Bool → Updating R
    faded i sc cleared =
        let cell = weaken config now_ns l1 sc.cell in
        if cleared
        then record u {
          cells = store i (record sc { cell = clear config now_ns cell }) u.cells;
          stats = record u.stats { cells_evicted = u.stats.cells_evicted + 1 };
          any_evicted = true;
          local_evicted = u.local_evicted ++ (key ∷ []);
        }
        else record u {
          cells = store i (record sc { cell = cell; write_seq = map_seq }) u.cells;
          local_dirty = u.local_dirty ++ ((key, cell) ∷ []);
        }

    faded-Follows :
        (i : ℕ) (sc : StoredCell (MissionLocalPlanningCell R))
        → IsFound key u.cells i sc
        → (cleared : Bool) → is_cleared config now_ns (weaken config now_ns l1 sc.cell) ≡ cleared
        → Follows u key (λ k. fade config now_ns l1 k.cell k) (faded i sc cleared)
    faded-Follows i sc f true b =
        let cell = weaken config now_ns l1 sc.cell in
        let t : StoredCell (MissionLocalPlanningCell R) = record sc {
          cell = clear config now_ns cell;
        } in
        let looks = store-lookup u.cells h.consistent key i sc f t f.key_same in
        Follows-cases u key (λ k. fade config now_ns l1 k.cell k) (faded i sc true)
          (record {
            consistent = store-IsConsistent u.cells h.consistent key i sc f t f.key_same;
            flagged = inl refl;
          })
          (λ k a.
            rw (← a.cell, f.lookup_same, b)
              (record {
                cell = ground (arith, looks key, same_key_refl key);
                dirty_entry = a.dirty_entry;
                cleared = ground (arith, has_key-append u.local_evicted key key, same_key_refl key);
              }))
          (λ q k e a. record {
            cell = ground (arith, looks q, e, a.cell);
            dirty_entry = a.dirty_entry;
            cleared = ground (arith, has_key-append u.local_evicted key q, e, a.cleared);
          })
    faded-Follows i sc f false b =
        let cell = weaken config now_ns l1 sc.cell in
        let t : StoredCell (MissionLocalPlanningCell R) = record sc {
          cell = cell;
          write_seq = map_seq;
        } in
        let looks = store-lookup u.cells h.consistent key i sc f t f.key_same in
        Follows-cases u key (λ k. fade config now_ns l1 k.cell k) (faded i sc false)
          (record {
            consistent = store-IsConsistent u.cells h.consistent key i sc f t f.key_same;
            flagged = h.flagged;
          })
          (λ k a.
            rw (← a.cell, f.lookup_same, b)
              (record {
                cell = ground (arith, looks key, same_key_refl key);
                dirty_entry = rw (merge_dirty-append, same_key_refl) refl;
                cleared = a.cleared;
              }))
          (λ q k e a. record {
            cell = ground (arith, looks q, e, a.cell);
            dirty_entry = rw (merge_dirty-append, e) a.dirty_entry;
            cleared = a.cleared;
          })

    found-Follows :
        (m : Option (ℕ × StoredCell (MissionLocalPlanningCell R)))
        → find key u.cells ≡ m
        → Follows u key
            (λ k. fade config now_ns l1 k.cell k)
            (free_found config now_ns map_seq key l1 m u)
    unfolding free_found
    found-Follows none e =
        let (fresh, gone) = find-none u.cells h.consistent key e in
        Follows-cases u key (λ k. fade config now_ns l1 k.cell k) u h
          (λ k a.
            rw (← a.cell, gone)
              (record { cell = gone; dirty_entry = a.dirty_entry; cleared = a.cleared }))
          (λ q k e a. a)
    found-Follows (some (i, sc)) e =
        let f = find-some u.cells h.consistent key i sc e in
        faded-Follows i sc f (is_cleared config now_ns (weaken config now_ns l1 sc.cell)) refl

  module _ (config : MissionLocalPlanningMapConfig R) (now_ns : ℤ) (map_seq : ℕ)
      (l1 : MissionLocalTraversabilityCell R) (u : Updating R) (h : IsUpdating u) where
    abbrev key : CellKey
    key = key_for_point config l1.center_map

    abbrev counted : Updating R
    counted = record u { stats = record u.stats { l1_free_applied = u.stats.l1_free_applied + 1 } }

    free-Follows :
        Follows u key
          (λ k. fade config now_ns l1 k.cell k)
          (apply_free config now_ns map_seq key l1 u)
    unfolding apply_free
    free-Follows =
        let f =
          found-Follows config now_ns map_seq key l1 counted
            (record { consistent = h.consistent; flagged = h.flagged }) (find key u.cells) refl in
        record {
          updating = f.updating;
          agrees = λ q k a.
              f.agrees q k
                (record { cell = a.cell; dirty_entry = a.dirty_entry; cleared = a.cleared });
        }

    unchanged-Follows : Follows u key (λ k. k) u
    unchanged-Follows = Follows-cases u key (λ k. k) u h (λ k a. a) (λ q k e a. a)

    chosen-Follows :
        (occupied strong free : Bool)
        → Follows u key
            (λ k.
              if occupied && strong
              then struck config now_ns map_seq key l1 u h k
              else if free
              then fade config now_ns l1 k.cell k
              else k)
            (if not occupied && not free
              then u
              else if occupied && strong
              then merge_occupied config now_ns map_seq key l1 u
              else if free
              then apply_free config now_ns map_seq key l1 u
              else u)
    chosen-Follows true true free = occupied-Follows config now_ns map_seq key l1 u h
    chosen-Follows true false true = free-Follows
    chosen-Follows true false false = unchanged-Follows
    chosen-Follows false strong true = free-Follows
    chosen-Follows false strong false = unchanged-Follows

    pub merge_cell-Follows :
        Follows u key (observe config now_ns key l1) (merge_cell config now_ns map_seq l1 u)
    unfolding merge_cell
    merge_cell-Follows =
        chosen-Follows (is_occupied l1.state) (d.le config.min_occupied_score l1.occupied_score)
          (is_free l1.state)
