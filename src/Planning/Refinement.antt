-- ===== src/Planning/Refinement.antt =====
-- The whole update of the planning map against the view per key.
use dedalus.Base.{
  ℤ, ℕ, ◌+◌, ◌%◌, ◌^◌, Bool, true, false, ◌||◌, Option, none, some, List, [], ◌∷◌, if◌then◌else◌,
  Double, nought, ◌≡◌, refl, sym, subst, inr, arith,
}
use dedalus.Planning.{CellKey, Cells, erase, same_key, same_key-true, remove_cell_by_key}
use dedalus.Planning.Places.{IsConsistent, lookup}
use dedalus.Planning.Removal.{remove_cell_by_key-Removes}
use dedalus.Planning.Grid.{GridMath, MissionLocalPlanningCell}
use dedalus.Planning.Update.{
  MissionLocalPlanningMap, MissionLocalTraversabilityCell, Updating, begin_update, end_update,
  erase_dirty, evict_cleared_cell, evict_cleared_cells, has_key, insert_keys, merge_cells,
  merge_dirty, update_from_traversability,
}
use dedalus.Planning.Evidence.{KeyState, observe_all, settle, surviving}
use dedalus.Planning.Merging.{Agrees, IsUpdating, merge_cell-Follows}

module _ {R : Type 0} ⦃d : Double R⦄ ⦃g : GridMath R⦄ where
  surviving_twice :
      (o : Option (MissionLocalPlanningCell R)) → surviving (surviving o) ≡ surviving o
  surviving_twice none = refl
  surviving_twice (some c) = ground arith

  -- `t` is `s` with the cell of `key` kept or dropped by its score.
  Evicts :
      Cells (MissionLocalPlanningCell R) → CellKey → Cells (MissionLocalPlanningCell R) → Type 0
  Evicts s key t =
      IsConsistent t
      × ((q : CellKey)
          → lookup q t ≡ (if same_key q key then surviving (lookup q s) else lookup q s))

  kept-Evicts :
      (key : CellKey) (s : Cells (MissionLocalPlanningCell R))
      → IsConsistent s
      → surviving (lookup key s) ≡ lookup key s
      → Evicts s key s
  unfolding Evicts
  kept-Evicts key s consistent e = (consistent, λ q. at_key q (same_key q key) refl)
    where
      at_key :
          (q : CellKey) (is_key : Bool)
          → same_key q key ≡ is_key
          → lookup q s ≡ (if is_key then surviving (lookup q s) else lookup q s)
      at_key q true h =
          subst (λ x. lookup x s ≡ surviving (lookup x s)) (sym (same_key-true q key h)) (sym e)
      at_key q false h = refl

  decided-Evicts :
      (key : CellKey) (s : Cells (MissionLocalPlanningCell R)) (c : MissionLocalPlanningCell R)
      (positive : Bool)
      → IsConsistent s
      → lookup key s ≡ some c
      → d.lt nought c.occupied_score ≡ positive
      → Evicts s key (if positive then s else remove_cell_by_key key s)
  unfolding Evicts
  decided-Evicts key s c true consistent e p = kept-Evicts key s consistent (rw (e, p) refl)
  decided-Evicts key s c false consistent e p =
      let r = remove_cell_by_key-Removes s consistent key in
      (r.consistent, λ q. at_key q (same_key q key) refl)
    where
      at_key :
          (q : CellKey) (is_key : Bool)
          → same_key q key ≡ is_key
          → lookup q (remove_cell_by_key key s)
            ≡ (if is_key then surviving (lookup q s) else lookup q s)
      at_key q true h = ground (
        arith,
        (remove_cell_by_key-Removes s consistent key).lookups q,
        h,
        subst (λ x. surviving (lookup x s) ≡ none) (sym (same_key-true q key h)) (rw (e, p) refl),
      )
      at_key q false h = ground (arith, (remove_cell_by_key-Removes s consistent key).lookups q, h)

  evicted_cell :
      (key : CellKey) (s : Cells (MissionLocalPlanningCell R))
      (m : Option (MissionLocalPlanningCell R))
      → IsConsistent s
      → lookup key s ≡ m
      → Evicts s key (evict_cleared_cell key s)
  unfolding evict_cleared_cell
  evicted_cell key s none consistent e =
      rw (e, evict_cleared_cell) (kept-Evicts key s consistent (rw e refl))
  evicted_cell key s (some c) consistent e =
      rw (e, evict_cleared_cell)
        (decided-Evicts key s c (d.lt nought c.occupied_score) consistent e refl)

  evicted_cells :
      (keys : List CellKey) (s : Cells (MissionLocalPlanningCell R))
      → IsConsistent s
      → IsConsistent (evict_cleared_cells keys s)
        × ((q : CellKey)
            → lookup q (evict_cleared_cells keys s)
              ≡ (if has_key q keys then surviving (lookup q s) else lookup q s))
  unfolding evict_cleared_cells has_key Evicts
  evicted_cells [] s consistent = (consistent, λ q. refl)
  evicted_cells (key ∷ keys) s consistent =
      let (ok, looks) = evicted_cell key s (lookup key s) consistent refl in
      let (all_ok, all_looks) = evicted_cells keys (evict_cleared_cell key s) ok in
      (all_ok, λ q. ground (arith, all_looks q, looks q, surviving_twice (lookup q s)))

  erase_dirty_lem :
      (keys : List CellKey) (dirty : CellKey → Option (MissionLocalPlanningCell R)) (q : CellKey)
      → erase_dirty keys dirty q ≡ (if has_key q keys then none else dirty q)
  unfolding erase_dirty has_key
  erase_dirty_lem [] dirty q = refl
  erase_dirty_lem (k ∷ keys) dirty q = ground (arith, erase_dirty_lem keys (erase k dirty) q)

insert_keys_lem :
    (keys : List CellKey) (evicted : CellKey → Bool) (q : CellKey)
    → insert_keys keys evicted q ≡ (has_key q keys || evicted q)
unfolding insert_keys has_key
insert_keys_lem [] evicted q = refl
insert_keys_lem (k ∷ keys) evicted q =
    ground (arith, insert_keys_lem keys (λ x. same_key x k || evicted x) q)

module _ {R : Type 0} ⦃d : Double R⦄ ⦃g : GridMath R⦄ (m : MissionLocalPlanningMap R)
    (now_ns : ℤ) where
  merge_cells-Agrees :
      (source : List (MissionLocalTraversabilityCell R)) (map_seq : ℕ) (u : Updating R)
      → IsUpdating m.dirty_cells u
      → IsUpdating m.dirty_cells (merge_cells m.config now_ns map_seq source u)
        × ((q : CellKey) (k : KeyState R)
            → Agrees m.dirty_cells u q k
            → Agrees m.dirty_cells
                (merge_cells m.config now_ns map_seq source u)
                q
                (observe_all m.config now_ns q source k))
  unfolding merge_cells observe_all
  merge_cells-Agrees [] map_seq u h = (h, λ q k a. a)
  merge_cells-Agrees (l1 ∷ source) map_seq u h =
      let f = merge_cell-Follows m.dirty_cells m.config now_ns map_seq l1 u h in
      let (ok, agrees) = merge_cells-Agrees source map_seq _ f.updating in
      (ok, λ q k a. agrees q _ (f.agrees q k a))

  abbrev pub observed : List (MissionLocalTraversabilityCell R) → CellKey → KeyState R
  observed source q =
      observe_all m.config now_ns q source
        (record { cell = lookup q m.cells; dirty = m.dirty_cells q; cleared = false })

  -- What the update makes of one key, told from the Level 1 cells that lie in it alone.
  abbrev pub key_outcome : List (MissionLocalTraversabilityCell R) → CellKey → KeyState R
  key_outcome source q = settle (observed source q)

  -- `t` is the map after the update.
  pub record Updates (source : List (MissionLocalTraversabilityCell R))
      (t : MissionLocalPlanningMap R) : Type 0 where
    pub consistent : IsConsistent t.cells
    pub cell : (q : CellKey) → lookup q t.cells ≡ (key_outcome source q).cell
    pub dirty : (q : CellKey) → t.dirty_cells q ≡ (key_outcome source q).dirty
    pub evicted :
        (q : CellKey) → t.evicted_keys q ≡ ((key_outcome source q).cleared || m.evicted_keys q)
    pub next_seq : t.map_seq ≡ (m.map_seq + 1) % 2 ^ 64

  module _ (source : List (MissionLocalTraversabilityCell R)) (u : Updating R) (map_seq : ℕ)
      (updating : IsUpdating m.dirty_cells u) where
    pub ended_cells :
        (flag : Bool) (keys : List CellKey)
        → u.any_evicted ≡ flag
        → u.local_evicted ≡ keys
        → IsConsistent (if flag then evict_cleared_cells keys u.cells else u.cells)
          × ((q : CellKey)
              → lookup q (if flag then evict_cleared_cells keys u.cells else u.cells)
                ≡ (if has_key q keys then surviving (lookup q u.cells) else lookup q u.cells))
    unfolding has_key
    ended_cells true keys e l = evicted_cells keys u.cells updating.consistent
    ended_cells false [] e l = (updating.consistent, λ q. refl)
    ended_cells false (key ∷ keys) e l = absurd (ground (arith, updating.flagged, e, l))

    ended-Updates :
        ((q : CellKey) → Agrees m.dirty_cells u q (observed source q))
        → map_seq ≡ (m.map_seq + 1) % 2 ^ 64
        → Updates source (end_update map_seq u m)
    ended-Updates agrees next =
        let (ok, looks) = ended_cells u.any_evicted u.local_evicted refl refl in
        record {
          consistent = ok;
          cell = λ q. ground (arith, looks q, (agrees q).cell, (agrees q).cleared);
          dirty = λ q. ground (
            arith,
            erase_dirty_lem u.local_evicted (merge_dirty u.local_dirty m.dirty_cells) q,
            (agrees q).dirty_entry,
            (agrees q).cleared,
          );
          evicted = λ q.
              ground (arith, insert_keys_lem u.local_evicted m.evicted_keys q, (agrees q).cleared);
          next_seq = next;
        }

  -- The update leaves consistent cells. Each key's cell, its dirty entry and its mark for deletion are
  -- those that the Level 1 cells lying in that key give, in their order, whatever lies in other keys:
  -- the vector, its index, the moves at eviction and the locals do not show.
  pub update_from_traversability-Updates :
      (source : List (MissionLocalTraversabilityCell R))
      → IsConsistent m.cells
      → Updates source (update_from_traversability now_ns source m)
  unfolding update_from_traversability merge_dirty has_key
  update_from_traversability-Updates source consistent =
      let map_seq = (m.map_seq + 1) % 2 ^ 64 in
      let (updating, agrees) =
        merge_cells-Agrees source map_seq (begin_update source m)
          (record { consistent = consistent; flagged = inr refl }) in
      ended-Updates source (merge_cells m.config now_ns map_seq source (begin_update source m))
        map_seq updating
        (λ q.
          agrees q (record { cell = lookup q m.cells; dirty = m.dirty_cells q; cleared = false })
            (record { cell = refl; dirty_entry = refl; cleared = refl }))
        refl
