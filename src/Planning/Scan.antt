-- ===== src/Planning/Scan.antt =====
-- The query by buckets against a scan of all cells.
use dedalus.Base.{
  ℕ, zero, suc, Bool, true, false, ◌||◌, Option, none, some, List, [], ◌∷◌, In, get_elem?,
  if◌then◌else◌, Double, ◌≡◌, refl, sym, ap, subst, ◌∙◌, inl, inr, ◌↔◌, arith,
}
use dedalus.Planning.{
  BucketKey, CellKey, Cells, StoredCell, bucket_for_cell_key, same_bucket, same_key, same_key-true,
}
use dedalus.Planning.Places.{IsConsistent}
use dedalus.Planning.Elements.{Has}
use dedalus.Planning.Ranges.{
  AtMost, Between, In-flat_map, In-up_to, flat_map-In, floor_div_pos-mono_10, floor_div_pos-mono_5,
}
use dedalus.Planning.Grid.{
  GridMath, MissionLocalPlanningMapConfig, MissionLocalPlanningCell, key_for_point,
}
use dedalus.Planning.Stores.{find-some}
use dedalus.Planning.Update.{find, has_key}
use dedalus.Planning.Query.{
  Bounds3, flat_map, hit_entry, is_hit, occupied_cells_in_box, up_to, walk_buckets,
}

same_bucket_refl : (b : BucketKey) → same_bucket b b ≡ true
same_bucket_refl b = ground arith

has_key-In : (key : CellKey) (keys : List CellKey) → has_key key keys ≡ true → In key keys
unfolding has_key
has_key-In key [] h = absurd (ground (arith, h))
has_key-In key (k ∷ keys) h = decide (same_key key k) refl h (has_key-In key keys)
  where
    decide :
        (b : Bool)
        → same_key key k ≡ b
        → (b || has_key key keys) ≡ true
        → (has_key key keys ≡ true → In key keys)
        → In key (k ∷ keys)
    decide true e t rest = inl (sym (same_key-true key k e))
    decide false e t rest = inr (rest t)

module _ {R : Type 0} ⦃d : Double R⦄ ⦃g : GridMath R⦄
    (config : MissionLocalPlanningMapConfig R) where
  -- Rounding down to a cell does not change the order of two coordinates.
  pub record IsMonotone : Type 0 where
    pub horizontal :
        (a b : R)
        → d.le a b ≡ true
        → AtMost
            (g.floor_int (d.div a config.cell_size_m))
            (g.floor_int (d.div b config.cell_size_m))
    pub vertical :
        (a b : R)
        → d.le a b ≡ true
        → AtMost
            (g.floor_int (d.div a config.vertical_cell_size_m))
            (g.floor_int (d.div b config.vertical_cell_size_m))

  -- The point that a cell gives as its centre lies in the cell.
  abbrev pub IsCentred : Cells (MissionLocalPlanningCell R) → Type 0
  IsCentred s =
      (sc : StoredCell (MissionLocalPlanningCell R))
      → Has s.cells sc
      → key_for_point config sc.cell.center_map ≡ sc.key

  -- The reference: every cell of the vector is tested.
  abbrev pub scan_box :
      Bounds3 R
      → List (StoredCell (MissionLocalPlanningCell R))
      → List (StoredCell (MissionLocalPlanningCell R))
  scan_box bbox [] = []
  scan_box bbox (sc ∷ cells) =
      if is_hit config bbox sc.cell then sc ∷ scan_box bbox cells else scan_box bbox cells

  scan_sound :
      (bbox : Bounds3 R) (cells : List (StoredCell (MissionLocalPlanningCell R)))
      (sc : StoredCell (MissionLocalPlanningCell R))
      → In sc (scan_box bbox cells)
      → Has cells sc × (is_hit config bbox sc.cell ≡ true)
  scan_sound bbox [] sc h = absurd h
  scan_sound bbox (c ∷ cells) sc h =
      decide (is_hit config bbox c.cell) refl h (scan_sound bbox cells sc)
    where
      next :
          Has cells sc × (is_hit config bbox sc.cell ≡ true)
          → Has (c ∷ cells) sc × (is_hit config bbox sc.cell ≡ true)
      next ((i, at), hit) = ((suc i, at), hit)

      decide :
          (b : Bool)
          → is_hit config bbox c.cell ≡ b
          → In sc (if b then c ∷ scan_box bbox cells else scan_box bbox cells)
          → (In sc (scan_box bbox cells) → Has cells sc × (is_hit config bbox sc.cell ≡ true))
          → Has (c ∷ cells) sc × (is_hit config bbox sc.cell ≡ true)
      decide true e (inl same) rest =
          ((zero, ap some same), subst (λ x. is_hit config bbox x.cell ≡ true) same e)
      decide true e (inr l) rest = next (rest l)
      decide false e l rest = next (rest l)

  scan_complete :
      (bbox : Bounds3 R) (cells : List (StoredCell (MissionLocalPlanningCell R))) (i : ℕ)
      (sc : StoredCell (MissionLocalPlanningCell R))
      → get_elem? cells i ≡ some sc
      → is_hit config bbox sc.cell ≡ true
      → In sc (scan_box bbox cells)
  scan_complete bbox [] i sc at hit = absurd (ground (arith, at))
  scan_complete bbox (c ∷ cells) zero sc at hit =
      let same : c ≡ sc = ground (arith, at) in rw (same, hit) (inl refl)
  scan_complete bbox (c ∷ cells) (suc i) sc at hit =
      decide (is_hit config bbox c.cell) (scan_complete bbox cells i sc at hit)
    where
      decide :
          (b : Bool)
          → In sc (scan_box bbox cells)
          → In sc (if b then c ∷ scan_box bbox cells else scan_box bbox cells)
      decide true h = inr h
      decide false h = h

  module _ (bbox : Bounds3 R) (s : Cells (MissionLocalPlanningCell R))
      (members : BucketKey → List CellKey) (consistent : IsConsistent s)
      (lists : (b : BucketKey) (key : CellKey) → has_key key (members b) ≡ s.buckets b key) where
    found_entry :
        (sc : StoredCell (MissionLocalPlanningCell R)) (i : ℕ)
        → get_elem? s.cells i ≡ some sc
        → find sc.key s ≡ some (i, sc)
    unfolding find
    found_entry sc i at = ground (arith, at, consistent.indexed i sc at)

    bucketed_hit :
        (sc : StoredCell (MissionLocalPlanningCell R)) (i : ℕ)
        → get_elem? s.cells i ≡ some sc
        → is_hit config bbox sc.cell ≡ true
        → In sc (
            flat_map
              (λ key. hit_entry config bbox (find key s))
              (members (bucket_for_cell_key sc.key)))
    bucketed_hit sc i at hit =
        let b = bucket_for_cell_key sc.key in
        In-flat_map (λ key. hit_entry config bbox (find key s)) (members b) sc.key sc
          (has_key-In sc.key (members b) (
            ground (
              arith,
              lists b sc.key,
              consistent.bucketed b sc.key,
              consistent.indexed i sc at,
              same_bucket_refl b,
            )))
          (rw (found_entry sc i at, hit) (inl refl))

    found_hit :
        (key : CellKey) (o : Option (ℕ × StoredCell (MissionLocalPlanningCell R)))
        (sc : StoredCell (MissionLocalPlanningCell R))
        → find key s ≡ o
        → In sc (hit_entry config bbox o)
        → Has s.cells sc × (is_hit config bbox sc.cell ≡ true)
    found_hit key none sc e h = absurd h
    found_hit key (some (i, c)) sc e h = decide (is_hit config bbox c.cell) refl h
      where
        decide :
            (b : Bool)
            → is_hit config bbox c.cell ≡ b
            → In sc (if b then c ∷ [] else [])
            → Has s.cells sc × (is_hit config bbox sc.cell ≡ true)
        decide true b (inl same) = (
          (i, (find-some s consistent key i c e).place ∙ ap some same),
          subst (λ x. is_hit config bbox x.cell ≡ true) same b,
        )
        decide true b (inr l) = absurd l
        decide false b l = absurd l

    walk_complete :
        (low high : BucketKey) (sc : StoredCell (MissionLocalPlanningCell R)) (i : ℕ)
        → get_elem? s.cells i ≡ some sc
        → is_hit config bbox sc.cell ≡ true
        → Between low (bucket_for_cell_key sc.key) high
        → In sc (walk_buckets config bbox members s low high)
    unfolding walk_buckets
    walk_complete low high sc i at hit (x, y, z) =
        let b = bucket_for_cell_key sc.key in
        In-flat_map _ (up_to low.x high.x) b.x sc (In-up_to low.x high.x b.x x.0 x.1) (
          In-flat_map _ (up_to low.y high.y) b.y sc (In-up_to low.y high.y b.y y.0 y.1) (
            In-flat_map _ (up_to low.z high.z) b.z sc (In-up_to low.z high.z b.z z.0 z.1)
              (bucketed_hit sc i at hit)))

    walk_sound :
        (low high : BucketKey) (sc : StoredCell (MissionLocalPlanningCell R))
        → In sc (walk_buckets config bbox members s low high)
        → Has s.cells sc × (is_hit config bbox sc.cell ≡ true)
    unfolding walk_buckets
    walk_sound low high sc h =
        let (bx, in_x) = flat_map-In _ (up_to low.x high.x) sc h in
        let (by, in_y) = flat_map-In _ (up_to low.y high.y) sc in_x in
        let (bz, in_z) = flat_map-In _ (up_to low.z high.z) sc in_y in
        let (key, in_key) = flat_map-In _ (members (record { x = bx; y = by; z = bz })) sc in_z in
        found_hit key (find key s) sc refl in_key

    in_range :
        (sc : StoredCell (MissionLocalPlanningCell R))
        → key_for_point config sc.cell.center_map ≡ sc.key
        → IsMonotone
        → is_hit config bbox sc.cell ≡ true
        → Between
            (bucket_for_cell_key (key_for_point config bbox.low))
            (bucket_for_cell_key sc.key)
            (bucket_for_cell_key (key_for_point config bbox.high))
    unfolding key_for_point bucket_for_cell_key
    in_range sc e monotone hit =
        let p = sc.cell.center_map in
        let low = key_for_point config bbox.low in
        let mid = key_for_point config p in
        let high = key_for_point config bbox.high in
        rw (← e) (
          (
            floor_div_pos-mono_10 low.x mid.x
                (monotone.horizontal bbox.low.x p.x (ground (arith, hit))),
            floor_div_pos-mono_10 mid.x high.x
                (monotone.horizontal p.x bbox.high.x (ground (arith, hit))),
          ),
          (
            floor_div_pos-mono_10 low.y mid.y
                (monotone.horizontal bbox.low.y p.y (ground (arith, hit))),
            floor_div_pos-mono_10 mid.y high.y
                (monotone.horizontal p.y bbox.high.y (ground (arith, hit))),
          ),
          (
            floor_div_pos-mono_5 low.z mid.z
                (monotone.vertical bbox.low.z p.z (ground (arith, hit))),
            floor_div_pos-mono_5 mid.z high.z
                (monotone.vertical p.z bbox.high.z (ground (arith, hit))),
          ),
        )

    -- On consistent cells whose centres lie in them, and with rounding that keeps the order, the query
    -- by buckets finds exactly the cells that a scan of all cells finds, in some order; the list that
    -- stands for the iteration of a bucket has exactly the keys of the bucket.
    pub occupied_cells_in_box-Scan :
        IsCentred s
        → IsMonotone
        → (sc : StoredCell (MissionLocalPlanningCell R))
        → In sc (occupied_cells_in_box config bbox members s) ↔ In sc (scan_box bbox s.cells)
    unfolding occupied_cells_in_box
    occupied_cells_in_box-Scan centred monotone sc = (
      λ h. let ((i, at), hit) = walk_sound _ _ sc h in scan_complete bbox s.cells i sc at hit,
      λ h.
          let ((i, at), hit) = scan_sound bbox s.cells sc h in
          walk_complete _ _ sc i at hit (in_range sc (centred sc (i, at)) monotone hit),
    )
