-- ===== src/Planning/Traces.antt =====
-- Which cells an update writes: each cell of the vector was written in this update, or is the one
-- that its key had before, or is about to be evicted.
use dedalus.Base.{
  ℤ, ℕ, ◌+◌, Bool, true, false, not, ◌&&◌, Option, none, some, List, [], ◌∷◌, ◌++◌, if◌then◌else◌,
  Double, IsIeee, nought, ◌≡◌, refl, ap, ◌∙◌, ◌⊎◌, inl, inr, arith,
}
use dedalus.Planning.{CellKey, Cells, StoredCell, create_cell, same_key_refl}
use dedalus.Planning.Places.{IsConsistent, lookup}
use dedalus.Planning.Elements.{Has, Has-append, Has-set_at}
use dedalus.Planning.Grid.{
  GridMath, MissionLocalPlanningMapConfig, MissionLocalPlanningCell, key_for_point,
}
use dedalus.Planning.Stores.{find-some}
use dedalus.Planning.Update.{
  MissionLocalTraversabilityCell, Updating, apply_free, find, free_found, has_key, hit_cells,
  is_cleared, is_free, is_occupied, merge_cell, merge_occupied, store, weaken,
}
use dedalus.Planning.Evidence.{has_key-append}

module _ {R : Type 0} ⦃d : Double R⦄ ⦃ieee : IsIeee R⦄ ⦃g : GridMath R⦄
    (old : Cells (MissionLocalPlanningCell R)) (map_seq : ℕ) where
  -- Where a cell of the vector comes from; `keys` are those listed for eviction.
  abbrev pub Traced : List CellKey → StoredCell (MissionLocalPlanningCell R) → Type 0
  Traced keys sc =
      (sc.write_seq ≡ map_seq)
      ⊎ ((lookup sc.key old ≡ some sc.cell)
          ⊎ ((has_key sc.key keys ≡ true) × (d.lt nought sc.cell.occupied_score ≡ false)))

  abbrev pub Traces : Updating R → Type 0
  Traces u =
      (sc : StoredCell (MissionLocalPlanningCell R))
      → Has u.cells.cells sc
      → Traced u.local_evicted sc

  Traced-append :
      (keys : List CellKey) (key : CellKey) (sc : StoredCell (MissionLocalPlanningCell R))
      → Traced keys sc
      → Traced (keys ++ (key ∷ [])) sc
  Traced-append keys key sc (inl h) = inl h
  Traced-append keys key sc (inr (inl h)) = inr (inl h)
  Traced-append keys key sc (inr (inr (h, low))) =
      inr (inr (ground (arith, has_key-append keys key sc.key, h), low))

  module _ (config : MissionLocalPlanningMapConfig R) (now_ns : ℤ) (key : CellKey)
      (l1 : MissionLocalTraversabilityCell R) (u : Updating R) (traces : Traces u) where
    hit_Traced :
        (m : Option (ℕ × StoredCell (MissionLocalPlanningCell R)))
        (sc : StoredCell (MissionLocalPlanningCell R))
        → Has (hit_cells config now_ns map_seq key l1 m u.cells).cells sc
        → Traced u.local_evicted sc
    unfolding hit_cells create_cell store
    hit_Traced none sc h = elim (Has-append u.cells.cells _ sc h) [
      | inl same ↦ inl (ap (λ c. c.write_seq) same)
      | inr before ↦ traces sc before
    ]
    hit_Traced (some (i, found)) sc h = elim (Has-set_at i _ u.cells.cells sc h) [
      | inl same ↦ inl (ap (λ c. c.write_seq) same)
      | inr before ↦ traces sc before
    ]

    occupied-Traces : Traces (merge_occupied config now_ns map_seq key l1 u)
    unfolding merge_occupied
    occupied-Traces sc h = hit_Traced (find key u.cells) sc h

    module _ (consistent : IsConsistent u.cells) where
      faded_Traced :
          (i : ℕ) (found : StoredCell (MissionLocalPlanningCell R))
          → find key u.cells ≡ some (i, found)
          → (cleared : Bool)
          → is_cleared config now_ns (weaken config now_ns l1 found.cell) ≡ cleared
          → Traces (free_found config now_ns map_seq key l1 (some (i, found)) u)
      unfolding free_found store
      faded_Traced i found e true b sc = rw b (λ h. elim (Has-set_at i _ u.cells.cells sc h) [
        | inl same ↦ inr (
            inr (
              rw
                  (
                    ap (λ c. c.key) same ∙ (find-some u.cells consistent key i found e).key_same,
                    has_key-append,
                    same_key_refl,
                  )
                  refl,
              ap (λ c. d.lt nought c.cell.occupied_score) same ∙ ieee.lt_irrefl nought,
            ))
        | inr before ↦ Traced-append u.local_evicted key sc (traces sc before)
      ])
      faded_Traced i found e false b sc = rw b (λ h. elim (Has-set_at i _ u.cells.cells sc h) [
        | inl same ↦ inl (ap (λ c. c.write_seq) same)
        | inr before ↦ traces sc before
      ])

      free_Traced :
          (m : Option (ℕ × StoredCell (MissionLocalPlanningCell R)))
          → find key u.cells ≡ m
          → Traces (free_found config now_ns map_seq key l1 m u)
      unfolding free_found
      free_Traced none e = traces
      free_Traced (some (i, found)) e =
          faded_Traced i found e (is_cleared config now_ns (weaken config now_ns l1 found.cell))
            refl

  module _ (config : MissionLocalPlanningMapConfig R) (now_ns : ℤ)
      (l1 : MissionLocalTraversabilityCell R) (u : Updating R) (traces : Traces u)
      (consistent : IsConsistent u.cells) where
    free-Traces : (key : CellKey) → Traces (apply_free config now_ns map_seq key l1 u)
    unfolding apply_free
    free-Traces key =
        free_Traced config now_ns key l1
          (record u { stats = record u.stats { l1_free_applied = u.stats.l1_free_applied + 1 } })
          traces consistent (find key u.cells) refl

    pub merge_cell-Traces : Traces (merge_cell config now_ns map_seq l1 u)
    unfolding merge_cell
    merge_cell-Traces =
        decide (is_occupied l1.state) (d.le config.min_occupied_score l1.occupied_score)
          (is_free l1.state)
      where
        decide :
            (occupied strong free : Bool)
            → Traces (
                if not occupied && not free
                then u
                else if occupied && strong
                then merge_occupied config now_ns map_seq (key_for_point config l1.center_map) l1 u
                else if free
                then apply_free config now_ns map_seq (key_for_point config l1.center_map) l1 u
                else u)
        decide true true free =
            occupied-Traces config now_ns (key_for_point config l1.center_map) l1 u traces
        decide true false true = free-Traces (key_for_point config l1.center_map)
        decide true false false = traces
        decide false strong true = free-Traces (key_for_point config l1.center_map)
        decide false strong false = traces
