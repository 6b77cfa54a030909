-- ===== src/Planning/Query.antt =====
-- The queries for the occupied cells of a box: src/avoidance/mission_local_planning_map_query.cpp.
-- The iteration of a bucket's hash set is over a list of its members, given from outside.
use dedalus.Base.{
  ℤ, pos, pos_part, ◌+ℤ◌, ◌-ℤ◌, ℕ, zero, suc, Bool, not, ◌&&◌, Option, none, some, List, [], ◌∷◌,
  ◌++◌, map, if◌then◌else◌, Double,
}
use dedalus.Mission.{Vec3}
use dedalus.Planning.{BucketKey, CellKey, Cells, StoredCell, bucket_for_cell_key}
use dedalus.Planning.Grid.{
  GridMath, MissionLocalPlanningMapConfig, MissionLocalPlanningCell, key_for_point,
}
use dedalus.Planning.Update.{find}

pub record Bounds3 (R : Type 0) : Type 0 where
  pub low : Vec3 R
  pub high : Vec3 R

-- The values of `for (int i = low; i <= high; ++i)`.
unfoldable pub count_up : ℕ → ℤ → List ℤ
count_up zero low = []
count_up (suc n) low = low ∷ count_up n (low +ℤ pos 1)

abbrev pub up_to : ℤ → ℤ → List ℤ
up_to low high = count_up (pos_part (high -ℤ low +ℤ pos 1)) low

-- A loop that appends to its result.
unfoldable pub flat_map : {A B : Type 0} → (A → List B) → List A → List B
flat_map f [] = []
flat_map f (x ∷ xs) = f x ++ flat_map f xs

module _ {R : Type 0} ⦃d : Double R⦄ where
  abbrev pub in_box : Bounds3 R → Vec3 R → Bool
  in_box bbox p =
      d.le bbox.low.x p.x
      && d.le p.x bbox.high.x
      && d.le bbox.low.y p.y
      && d.le p.y bbox.high.y
      && d.le bbox.low.z p.z
      && d.le p.z bbox.high.z

  module _ (config : MissionLocalPlanningMapConfig R) (bbox : Bounds3 R) where
    -- The test for one cell.
    abbrev pub is_hit : MissionLocalPlanningCell R → Bool
    is_hit cell =
        not (d.lt cell.occupied_score (d.to_float config.min_occupied_score))
        && in_box bbox cell.center_map

    abbrev pub hit_entry :
        Option (ℕ × StoredCell (MissionLocalPlanningCell R))
        → List (StoredCell (MissionLocalPlanningCell R))
    hit_entry none = []
    hit_entry (some (i, entry)) = if is_hit entry.cell then entry ∷ [] else []

    module _ ⦃g : GridMath R⦄ (members : BucketKey → List CellKey)
        (s : Cells (MissionLocalPlanningCell R)) where
      -- The loops over the buckets.
      unfoldable pub walk_buckets :
          BucketKey → BucketKey → List (StoredCell (MissionLocalPlanningCell R))
      walk_buckets bucket_min bucket_max =
          flat_map
            (λ bx.
              flat_map
                (λ by.
                  flat_map
                    (λ bz.
                      flat_map (λ key. hit_entry (find key s))
                        (members (record { x = bx; y = by; z = bz })))
                    (up_to bucket_min.z bucket_max.z))
                (up_to bucket_min.y bucket_max.y))
            (up_to bucket_min.x bucket_max.x)

      unfoldable pub occupied_cells_in_box : List (StoredCell (MissionLocalPlanningCell R))
      occupied_cells_in_box =
          walk_buckets (bucket_for_cell_key (key_for_point config bbox.low))
            (bucket_for_cell_key (key_for_point config bbox.high))

      abbrev pub query_occupied_in_box : List (Vec3 R)
      query_occupied_in_box = map (λ entry. entry.cell.center_map) occupied_cells_in_box

      abbrev pub query_occupied_ts_in_box : List (Vec3 R × ℤ)
      query_occupied_ts_in_box =
          map (λ entry. (entry.cell.center_map, entry.cell.last_updated_ns)) occupied_cells_in_box
