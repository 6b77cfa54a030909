-- ===== src/Planning/Far.antt =====
-- Removing the cells that lie too far from the drone: `evict_far_cells`.
use dedalus.Base.{
  ℕ, Bool, true, false, Option, none, some, List, [], ◌∷◌, get_elem?, suc, zero, if◌then◌else◌,
  Double, ◌≡◌, refl, sym, arith,
}
use dedalus.Mission.{Vec3}
use dedalus.Planning.{
  CellKey, Cells, StoredCell, remove_cell_by_key, same_key, same_key_refl, same_key-true,
}
use dedalus.Planning.Places.{IsConsistent, lookup}
use dedalus.Planning.Removal.{remove_cell_by_key-Removes}
use dedalus.Planning.Grid.{MissionLocalPlanningCell}
use dedalus.Planning.Update.{has_key}
use dedalus.Planning.Window.{evict_far_cells, far_keys, is_far, remove_keys}

module _ {R : Type 0} ⦃d : Double R⦄ where
  removed_keys :
      (keys : List CellKey) (s : Cells (MissionLocalPlanningCell R))
      → IsConsistent s
      → IsConsistent (remove_keys keys s)
        × ((q : CellKey)
            → lookup q (remove_keys keys s) ≡ (if has_key q keys then none else lookup q s))
  unfolding remove_keys has_key
  removed_keys [] s consistent = (consistent, λ q. refl)
  removed_keys (key ∷ keys) s consistent =
      let r = remove_cell_by_key-Removes s consistent key in
      let (ok, looks) = removed_keys keys (remove_cell_by_key key s) r.consistent in
      (ok, λ q. ground (arith, looks q, r.lookups q))

  module _ (centre : Vec3 R) (radius : R) where
    abbrev pub near : Option (MissionLocalPlanningCell R) → Option (MissionLocalPlanningCell R)
    near none = none
    near (some c) = if is_far centre radius c then none else some c

    -- Some far cell of the vector has the key.
    abbrev FarCell : List (StoredCell (MissionLocalPlanningCell R)) → CellKey → Type 0
    FarCell cells q =
        (i : ℕ) × (sc : StoredCell (MissionLocalPlanningCell R)) × (get_elem? cells i ≡ some sc)
        × (sc.key ≡ q)
        × (is_far centre radius sc.cell ≡ true)

    later :
        (sc : StoredCell (MissionLocalPlanningCell R))
        (cells : List (StoredCell (MissionLocalPlanningCell R))) (q : CellKey)
        → FarCell cells q
        → FarCell (sc ∷ cells) q
    later sc cells q (i, c, at, same, far) = (suc i, c, at, same, far)

    listed_far :
        (cells : List (StoredCell (MissionLocalPlanningCell R))) (q : CellKey)
        → has_key q (far_keys centre radius cells) ≡ true
        → FarCell cells q
    unfolding far_keys has_key
    listed_far [] q h = absurd (ground (arith, h))
    listed_far (sc ∷ cells) q h =
        decide (listed_far cells q) (is_far centre radius sc.cell) (same_key q sc.key) refl refl h
      where
        decide :
            (has_key q (far_keys centre radius cells) ≡ true → FarCell cells q)
            → (far same : Bool) → is_far centre radius sc.cell ≡ far
            → same_key q sc.key ≡ same
            → has_key q (
                if far then sc.key ∷ far_keys centre radius cells else far_keys centre radius cells)
              ≡ true
            → FarCell (sc ∷ cells) q
        decide rest true true f e l = (zero, sc, refl, sym (same_key-true q sc.key e), f)
        decide rest true false f e l = later sc cells q (rest (ground (arith, e, l)))
        decide rest false same f e l = later sc cells q (rest l)

    far_listed :
        (cells : List (StoredCell (MissionLocalPlanningCell R))) (i : ℕ)
        (sc : StoredCell (MissionLocalPlanningCell R))
        → get_elem? cells i ≡ some sc
        → is_far centre radius sc.cell ≡ true
        → has_key sc.key (far_keys centre radius cells) ≡ true
    unfolding far_keys has_key
    far_listed [] i sc at far = ground (arith, at)
    far_listed (c ∷ cells) zero sc at far = ground (arith, at, far, same_key_refl sc.key)
    far_listed (c ∷ cells) (suc i) sc at far = ground (arith, far_listed cells i sc at far)

    -- The cells within the radius stay, the others go.
    pub evicted_far :
        (s : Cells (MissionLocalPlanningCell R))
        → IsConsistent s
        → IsConsistent (evict_far_cells centre radius s)
          × ((q : CellKey) → lookup q (evict_far_cells centre radius s) ≡ near (lookup q s))
    unfolding evict_far_cells
    evicted_far s consistent =
        let (ok, looks) = removed_keys (far_keys centre radius s.cells) s consistent in
        (ok, λ q. at_key q (has_key q (far_keys centre radius s.cells)) (s.index q) refl refl looks)
      where
        at_key :
            (q : CellKey) (listed : Bool) (m : Option ℕ)
            → has_key q (far_keys centre radius s.cells) ≡ listed
            → s.index q ≡ m
            → ((x : CellKey)
                → lookup x (remove_keys (far_keys centre radius s.cells) s)
                  ≡ (if has_key x (far_keys centre radius s.cells) then none else lookup x s))
            → lookup q (remove_keys (far_keys centre radius s.cells) s) ≡ near (lookup q s)
        at_key q true m l e looks =
            let (i, sc, at, same, far) = listed_far s.cells q l in
            let indexed = consistent.indexed i sc at in
            ground (arith, looks q, l, indexed, same, at, far)
        at_key q false none l e looks = ground (arith, looks q, l, e)
        at_key q false (some i) l e looks =
            let (sc, at, same) = consistent.found q i e in
            ground (arith, looks q, l, e, at, same, far_listed s.cells i sc at)
