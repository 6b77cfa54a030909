-- ===== src/Planning/Streaming.antt =====
-- What the delta snapshots miss: nothing that an update changes and keeps.
use dedalus.Base.{
  ℤ, ℕ, ◌+◌, ◌%◌, ◌^◌, ◌≤◌, ◌<◌, Bool, true, false, Option, none, some, List, [], ◌∷◌, In,
  get_elem?, ltb, zero, suc, if◌then◌else◌, Double, IsIeee, nought, ◌≡◌, refl, ◌⊎◌, inl, inr, arith,
}
use dedalus.Planning.{CellKey, Cells, StoredCell, remove_cell_by_key}
use dedalus.Planning.Places.{IsConsistent, lookup}
use dedalus.Planning.Elements.{Has, Has-remove_cell_by_key}
use dedalus.Planning.Grid.{GridMath, MissionLocalPlanningCell}
use dedalus.Planning.Update.{
  MissionLocalPlanningMap, MissionLocalTraversabilityCell, Updating, begin_update, end_update,
  evict_cleared_cell, evict_cleared_cells, has_key, merge_cell, merge_cells,
  update_from_traversability,
}
use dedalus.Planning.Evidence.{surviving}
use dedalus.Planning.Merging.{IsUpdating, merge_cell-Follows}
use dedalus.Planning.Refinement.{ended_cells}
use dedalus.Planning.Traces.{Traces, merge_cell-Traces}
use dedalus.Planning.Window.{snapshot, written_after}

Has-lookup :
    {C : Type 0} (s : Cells C)
    → IsConsistent s
    → (sc : StoredCell C) → Has s.cells sc
    → lookup sc.key s ≡ some sc.cell
Has-lookup s consistent sc (i, at) = ground (arith, consistent.indexed i sc at, at)

In-written_after :
    {R : Type 0} (since_seq : ℕ) (cells : List (StoredCell (MissionLocalPlanningCell R)))
    (sc : StoredCell (MissionLocalPlanningCell R)) (i : ℕ)
    → get_elem? cells i ≡ some sc
    → since_seq < sc.write_seq
    → In sc.cell (written_after since_seq cells)
unfolding written_after
In-written_after since_seq [] sc i at late = absurd (ground (arith, at))
In-written_after since_seq (c ∷ cells) sc zero at late =
    let same : c ≡ sc = ground (arith, at) in rw (same, written) (inl refl)
  where
    written : ltb since_seq sc.write_seq ≡ true
    written = ground (arith, late)
In-written_after since_seq (c ∷ cells) sc (suc i) at late =
    decide (ltb since_seq c.write_seq) (In-written_after since_seq cells sc i at late)
  where
    decide :
        (b : Bool)
        → In sc.cell (written_after since_seq cells)
        → In sc.cell
            (if b then c.cell ∷ written_after since_seq cells else written_after since_seq cells)
    decide true h = inr h
    decide false h = h

module _ {R : Type 0} ⦃d : Double R⦄ ⦃ieee : IsIeee R⦄ ⦃g : GridMath R⦄ where
  Has-evict_cleared_cell :
      (key : CellKey) (s : Cells (MissionLocalPlanningCell R))
      (sc : StoredCell (MissionLocalPlanningCell R))
      → Has (evict_cleared_cell key s).cells sc
      → Has s.cells sc
  unfolding evict_cleared_cell
  Has-evict_cleared_cell key s sc h = decide (lookup key s) h
    where
      keep : (b : Bool) → Has (if b then s else remove_cell_by_key key s).cells sc → Has s.cells sc
      keep true m = m
      keep false m = Has-remove_cell_by_key s key sc m

      decide :
          (o : Option (MissionLocalPlanningCell R))
          → Has
              (elim o as (λ x. Cells (MissionLocalPlanningCell R)) [
                | none ↦ s
                | some cell ↦
                    if d.lt nought cell.occupied_score then s else remove_cell_by_key key s
              ]).cells
              sc
          → Has s.cells sc
      decide none m = m
      decide (some cell) m = keep (d.lt nought cell.occupied_score) m

  Has-evict_cleared_cells :
      (keys : List CellKey) (s : Cells (MissionLocalPlanningCell R))
      (sc : StoredCell (MissionLocalPlanningCell R))
      → Has (evict_cleared_cells keys s).cells sc
      → Has s.cells sc
  unfolding evict_cleared_cells
  Has-evict_cleared_cells [] s sc h = h
  Has-evict_cleared_cells (key ∷ keys) s sc h =
      Has-evict_cleared_cell key s sc (Has-evict_cleared_cells keys (evict_cleared_cell key s) sc h)

  abbrev settled_cells : Bool → Updating R → Cells (MissionLocalPlanningCell R)
  settled_cells flag u = if flag then evict_cleared_cells u.local_evicted u.cells else u.cells

  module _ (m : MissionLocalPlanningMap R) (now_ns : ℤ) (map_seq : ℕ) where
    merged :
        (source : List (MissionLocalTraversabilityCell R)) (u : Updating R)
        → IsUpdating m.dirty_cells u
        → Traces m.cells map_seq u
        → IsUpdating m.dirty_cells (merge_cells m.config now_ns map_seq source u)
          × Traces m.cells map_seq (merge_cells m.config now_ns map_seq source u)
    unfolding merge_cells
    merged [] u h traces = (h, traces)
    merged (l1 ∷ source) u h traces =
        merged source (merge_cell m.config now_ns map_seq l1 u)
          (merge_cell-Follows m.dirty_cells m.config now_ns map_seq l1 u h).updating
          (merge_cell-Traces m.cells map_seq m.config now_ns l1 u traces h.consistent)

    -- After the eviction every cell is one of this update or the one before.
    settled :
        (u : Updating R) (sc : StoredCell (MissionLocalPlanningCell R))
        → IsUpdating m.dirty_cells u
        → Traces m.cells map_seq u
        → Has (end_update map_seq u m).cells.cells sc
        → (sc.write_seq ≡ map_seq) ⊎ (lookup sc.key m.cells ≡ some sc.cell)
    settled u sc h traces has =
        let (ok, looks) =
          ended_cells m now_ns [] u map_seq h u.any_evicted u.local_evicted refl refl in
        decide ok looks (before u.any_evicted has)
      where
        before : (flag : Bool) → Has (settled_cells flag u).cells sc → Has u.cells.cells sc
        before true x = Has-evict_cleared_cells u.local_evicted u.cells sc x
        before false x = x

        decide :
            IsConsistent (settled_cells u.any_evicted u)
            → ((q : CellKey)
                → lookup q (settled_cells u.any_evicted u) ≡ (
                    if has_key q u.local_evicted
                    then surviving (lookup q u.cells)
                    else lookup q u.cells))
            → Has u.cells.cells sc
            → (sc.write_seq ≡ map_seq) ⊎ (lookup sc.key m.cells ≡ some sc.cell)
        decide ok looks there = elim (traces sc there) [
          | inl now ↦ inl now
          | inr (inl same) ↦ inr same
          | inr (inr (listed, low)) ↦ absurd (
              ground (
                arith,
                Has-lookup (settled_cells u.any_evicted u) ok sc has,
                looks sc.key,
                Has-lookup u.cells h.consistent sc there,
                listed,
                low,
              ))
        ]

  -- After an update, a snapshot of the changes since a number that is not above the one before the
  -- update holds every cell of the map, except those that their keys had, unchanged, before the
  -- update; the number of updates has not reached its last value.
  pub snapshot-Complete :
      (m : MissionLocalPlanningMap R) (now_ns : ℤ)
      (source : List (MissionLocalTraversabilityCell R)) (since_seq : ℕ)
      (sc : StoredCell (MissionLocalPlanningCell R))
      → IsConsistent m.cells
      → m.map_seq + 1 < 2 ^ 64
      → since_seq ≤ m.map_seq
      → Has (update_from_traversability now_ns source m).cells.cells sc
      → In sc.cell (snapshot since_seq (update_from_traversability now_ns source m)).cells
        ⊎ (lookup sc.key m.cells ≡ some sc.cell)
  unfolding update_from_traversability snapshot
  snapshot-Complete m now_ns source since_seq sc consistent room since has =
      let map_seq = (m.map_seq + 1) % 2 ^ 64 in
      let u = merge_cells m.config now_ns map_seq source (begin_update source m) in
      let (updating, traces) =
        merged m now_ns map_seq source (begin_update source m)
          (record { consistent = consistent; flagged = inr refl })
          (λ c there. inr (inl (Has-lookup m.cells consistent c there))) in
      elim (settled m now_ns map_seq u sc updating traces has) [
        | inl now ↦ inl (
            In-written_after since_seq (settled_cells u.any_evicted u).cells sc has.0 has.1
              (omega (arith, now, since, room)))
        | inr same ↦ inr same
      ]
