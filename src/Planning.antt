-- ===== src/Planning.antt =====
-- The cells of the mission-local planning map and their index:
-- src/avoidance/mission_local_planning_map.cpp. `C` is the type of a cell's contents.
pub mod Places
pub mod Removal
pub mod Creation
pub mod Grid
pub mod Update
pub mod Stores
pub mod Evidence
pub mod Merging
pub mod Refinement
pub mod Missing
pub mod Window
pub mod Far
pub mod Loading
pub mod Sliding
pub mod Store
pub mod Flush
pub mod Opening
pub mod Elements
pub mod Traces
pub mod Streaming
pub mod Query
pub mod Ranges
pub mod Scan
use dedalus.Base.{
  ℤ, pos, negsuc, sub_ℕ, ◌-ℤ◌, ◌/◌, ◌%◌, not, eqb_ℤ, ℕ, zero, suc, ◌+◌, ◌-◌, ◌==◌, Bool, true,
  false, ◌&&◌, Option, none, some, List, [], ◌∷◌, ◌++◌, length, get_elem?, if◌then◌else◌, ◌≡◌, refl,
  arith,
}

pub record CellKey : Type 0 where
  pub x : ℤ
  pub y : ℤ
  pub z : ℤ

unfoldable pub same_key : CellKey → CellKey → Bool
same_key a b = eqb_ℤ a.x b.x && eqb_ℤ a.y b.y && eqb_ℤ a.z b.z

eqb_ℤ-true : (a b : ℤ) → eqb_ℤ a b ≡ true → a ≡ b
eqb_ℤ-true a b h = ground arith

eqb_ℤ-refl : (a : ℤ) → eqb_ℤ a a ≡ true
eqb_ℤ-refl a = ground arith

pub same_key-true : (a b : CellKey) → same_key a b ≡ true → a ≡ b
unfolding same_key
same_key-true a b h = ground (arith, eqb_ℤ-true a.x b.x, eqb_ℤ-true a.y b.y, eqb_ℤ-true a.z b.z)

pub same_key_refl : (a : CellKey) → same_key a a ≡ true
unfolding same_key
same_key_refl a = ground (arith, eqb_ℤ-refl a.x, eqb_ℤ-refl a.y, eqb_ℤ-refl a.z)

-- `/` and `%` of C++ truncate towards zero; `b` is positive.
unfoldable pub floor_div_pos : ℤ → ℕ → ℤ
floor_div_pos (pos a) b = pos (a / b)
floor_div_pos (negsuc a) b =
    let q = sub_ℕ 0 (suc a / b) in if not (suc a % b == 0) then q -ℤ pos 1 else q

pub record BucketKey : Type 0 where
  pub x : ℤ
  pub y : ℤ
  pub z : ℤ

-- The spans are `kBucketSpanCellsXY` and `kBucketSpanCellsZ`.
unfoldable pub bucket_for_cell_key : CellKey → BucketKey
unfolding floor_div_pos
bucket_for_cell_key key = record {
  x = floor_div_pos key.x 10;
  y = floor_div_pos key.y 10;
  z = floor_div_pos key.z 5;
}

abbrev pub same_bucket : BucketKey → BucketKey → Bool
same_bucket a b = eqb_ℤ a.x b.x && eqb_ℤ a.y b.y && eqb_ℤ a.z b.z

pub record StoredCell (C : Type 0) : Type 0 where
  pub key : CellKey
  pub cell : C
  pub write_seq : ℕ

-- `cells_`, `cell_index_` and `spatial_buckets_`: a hash map is a function, a set is its test, and an
-- empty bucket is no bucket.
pub record Cells (C : Type 0) : Type 0 where
  pub cells : List (StoredCell C)
  pub index : CellKey → Option ℕ
  pub buckets : BucketKey → CellKey → Bool

abbrev pub set_at : {A : Type 0} → ℕ → A → List A → List A
set_at i a [] = []
set_at zero a (x ∷ xs) = a ∷ xs
set_at (suc i) a (x ∷ xs) = x ∷ set_at i a xs

-- `pop_back`.
abbrev pub drop_last : {A : Type 0} → List A → List A
drop_last [] = []
drop_last (x ∷ []) = []
drop_last (x ∷ y ∷ xs) = x ∷ drop_last (y ∷ xs)

abbrev pub put : {A : Type 0} → CellKey → A → (CellKey → Option A) → CellKey → Option A
put key a map query = if same_key query key then some a else map query

abbrev pub erase : {A : Type 0} → CellKey → (CellKey → Option A) → CellKey → Option A
erase key map query = if same_key query key then none else map query

-- `bucket_insert` and `bucket_remove`: whether the key is in its bucket.
unfoldable pub set_bucket :
    CellKey → Bool → (BucketKey → CellKey → Bool) → BucketKey → CellKey → Bool
set_bucket key member buckets b k =
    if same_bucket b (bucket_for_cell_key key) && same_key k key then member else buckets b k

module _ {C : Type 0} where
  -- `cells_.push_back` with `cell_index_.emplace`, for a key that is not there.
  unfoldable pub create_cell : CellKey → C → ℕ → Cells C → Cells C
  create_cell key cell seq s = record {
    cells = s.cells ++ (record { key = key; cell = cell; write_seq = seq } ∷ []);
    index = put key (length s.cells) s.index;
    buckets = set_bucket key true s.buckets;
  }

  -- The last cell moves to the place of the removed one.
  unfoldable pub swap_out : CellKey → ℕ → Cells C → Cells C
  swap_out key i s =
      let last = length s.cells - 1 in
      if i == last
      then record {
        cells = drop_last s.cells;
        index = erase key s.index;
        buckets = set_bucket key false s.buckets;
      }
      else elim (get_elem? s.cells last) [
        | none ↦ s
        | some moved ↦ record {
          cells = drop_last (set_at i moved s.cells);
          index = erase key (put moved.key i s.index);
          buckets = set_bucket key false s.buckets;
        }
      ]

  unfoldable pub remove_cell_by_key : CellKey → Cells C → Cells C
  unfolding swap_out
  remove_cell_by_key key s = elim (s.index key) [ none ↦ s | some i ↦ swap_out key i s ]
