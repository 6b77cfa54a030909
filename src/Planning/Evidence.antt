-- ===== src/Planning/Evidence.antt =====
-- The update of the planning map told per key: what the Level 1 cells of one key do to that key's
-- cell, whatever happens at the other keys.
use dedalus.Base.{
  ℤ, Bool, true, ◌&&◌, ◌||◌, Option, none, some, List, [], ◌∷◌, ◌++◌, if◌then◌else◌, Double, nought,
  ◌≡◌, refl, arith,
}
use dedalus.Planning.{CellKey, same_key, put}
use dedalus.Planning.Grid.{
  GridMath, MissionLocalPlanningMapConfig, MissionLocalPlanningCell, key_for_point,
}
use dedalus.Planning.Update.{
  MissionLocalTraversabilityCell, clear, first_hit, has_key, is_cleared, is_free, is_occupied,
  merge_dirty, reinforce, weaken,
}

-- The cell of one key, its entry in `dirty_cells_`, and whether it was listed for eviction.
pub record KeyState (R : Type 0) : Type 0 where
  pub cell : Option (MissionLocalPlanningCell R)
  pub dirty : Option (MissionLocalPlanningCell R)
  pub cleared : Bool

module _ {R : Type 0} ⦃d : Double R⦄ ⦃g : GridMath R⦄ where
  module _ (config : MissionLocalPlanningMapConfig R) (now_ns : ℤ) where
    abbrev pub hit :
        CellKey
        → MissionLocalTraversabilityCell R
        → Option (MissionLocalPlanningCell R)
        → MissionLocalPlanningCell R
    hit key l1 none = first_hit config now_ns key l1
    hit key l1 (some c) = reinforce config now_ns l1 c

    abbrev pub fade :
        MissionLocalTraversabilityCell R
        → Option (MissionLocalPlanningCell R)
        → KeyState R
        → KeyState R
    fade l1 none k = k
    fade l1 (some c) k =
        let faded = weaken config now_ns l1 c in
        if is_cleared config now_ns faded
        then record k { cell = some (clear config now_ns faded); cleared = true }
        else record k { cell = some faded; dirty = some faded }

    -- One Level 1 cell of the key.
    abbrev pub observe : CellKey → MissionLocalTraversabilityCell R → KeyState R → KeyState R
    observe key l1 k =
        if is_occupied l1.state && d.le config.min_occupied_score l1.occupied_score
        then record k { cell = some (hit key l1 k.cell); dirty = some (hit key l1 k.cell) }
        else if is_free l1.state
        then fade l1 k.cell k
        else k

    -- The Level 1 cells that lie in the key's cell, in their order.
    unfoldable pub observe_all :
        CellKey → List (MissionLocalTraversabilityCell R) → KeyState R → KeyState R
    observe_all key [] k = k
    observe_all key (l1 ∷ source) k = observe_all key source (
        if same_key key (key_for_point config l1.center_map)
        then observe (key_for_point config l1.center_map) l1 k
        else k)

  -- At the end a cell that was listed for eviction goes, unless a later hit raised its score again;
  -- its dirty entry goes in either case.
  abbrev pub surviving : Option (MissionLocalPlanningCell R) → Option (MissionLocalPlanningCell R)
  surviving none = none
  surviving (some c) = if d.lt nought c.occupied_score then some c else none

  abbrev pub settle : KeyState R → KeyState R
  settle k = if k.cleared then record k { cell = surviving k.cell; dirty = none } else k

  pub merge_dirty-append :
      (local : List (CellKey × MissionLocalPlanningCell R)) (key q : CellKey)
      (c : MissionLocalPlanningCell R) (dirty : CellKey → Option (MissionLocalPlanningCell R))
      → merge_dirty (local ++ ((key, c) ∷ [])) dirty q
        ≡ (if same_key q key then some c else merge_dirty local dirty q)
  unfolding merge_dirty
  merge_dirty-append [] key q c dirty = refl
  merge_dirty-append ((k, e) ∷ local) key q c dirty =
      merge_dirty-append local key q c (put k e dirty)

pub has_key-append :
    (keys : List CellKey) (key q : CellKey)
    → has_key q (keys ++ (key ∷ [])) ≡ (same_key q key || has_key q keys)
unfolding has_key
has_key-append [] key q = ground arith
has_key-append (k ∷ keys) key q = ground (arith, has_key-append keys key q)
