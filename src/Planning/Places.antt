-- ===== src/Planning/Places.antt =====
-- Keys and places: lists of cells by position, and the cells that agree with their index.
use dedalus.Base.{
  ℕ, zero, suc, ◌+◌, ◌<◌, ltb, ◌==◌, Bool, ◌&&◌, true, false, Option, none, some, List, [], ◌∷◌,
  ◌++◌, length, get_elem?, if◌then◌else◌, ◌≡◌, refl, ap, arith,
}
use dedalus.Planning.{
  BucketKey, bucket_for_cell_key, same_bucket, CellKey, Cells, StoredCell, drop_last, set_at,
}

pub length-set_at : {A : Type 0} (i : ℕ) (a : A) (xs : List A) → length (set_at i a xs) ≡ length xs
length-set_at i a [] = refl
length-set_at zero a (x ∷ xs) = refl
length-set_at (suc i) a (x ∷ xs) = ap suc (length-set_at i a xs)

pub get_elem?-set_at :
    {A : Type 0} (i : ℕ) (a : A) (xs : List A) (j : ℕ)
    → i < length xs
    → get_elem? (set_at i a xs) j ≡ (if j == i then some a else get_elem? xs j)
get_elem?-set_at i a [] j h = absurd (omega (arith, h))
get_elem?-set_at zero a (x ∷ xs) zero h = refl
get_elem?-set_at zero a (x ∷ xs) (suc j) h = ground arith
get_elem?-set_at (suc i) a (x ∷ xs) zero h = ground arith
get_elem?-set_at (suc i) a (x ∷ xs) (suc j) h =
    ground (arith, get_elem?-set_at i a xs j (omega (arith, h)))

pub get_elem?-drop_last :
    {A : Type 0} (xs : List A) (j : ℕ)
    → get_elem? (drop_last xs) j ≡ (if ltb (j + 1) (length xs) then get_elem? xs j else none)
get_elem?-drop_last [] j = ground arith
get_elem?-drop_last (x ∷ []) j = ground arith
get_elem?-drop_last (x ∷ y ∷ xs) zero = ground arith
get_elem?-drop_last (x ∷ y ∷ xs) (suc j) = ground (arith, get_elem?-drop_last (y ∷ xs) j)

pub get_elem?-inside :
    {A : Type 0} (xs : List A) (i : ℕ) (a : A) → get_elem? xs i ≡ some a → i < length xs
get_elem?-inside [] i a h = ground arith
get_elem?-inside (x ∷ xs) zero a h = ground arith
get_elem?-inside (x ∷ xs) (suc i) a h = ground (arith, get_elem?-inside xs i a h)

pub get_elem?-exists :
    {A : Type 0} (xs : List A) (i : ℕ) → i < length xs → (a : A) × (get_elem? xs i ≡ some a)
get_elem?-exists [] i h = absurd (omega (arith, h))
get_elem?-exists (x ∷ xs) zero h = (x, refl)
get_elem?-exists (x ∷ xs) (suc i) h = get_elem?-exists xs i (omega (arith, h))

-- The list after the last element has moved to the place `i`.
pub get_elem?-moved :
    {A : Type 0} (xs : List A) (i j : ℕ) (a : A)
    → i + 1 < length xs
    → get_elem? (drop_last (set_at i a xs)) j
      ≡ (if j == i then some a else if ltb (j + 1) (length xs) then get_elem? xs j else none)
get_elem?-moved xs i j a h = ground (
  arith,
  get_elem?-drop_last (set_at i a xs) j,
  get_elem?-set_at i a xs j (omega (arith, h)),
  length-set_at i a xs,
)

pub get_elem?-append :
    {A : Type 0} (xs : List A) (a : A) (j : ℕ)
    → get_elem? (xs ++ (a ∷ [])) j ≡ (if j == length xs then some a else get_elem? xs j)
get_elem?-append [] a zero = refl
get_elem?-append [] a (suc j) = ground arith
get_elem?-append (x ∷ xs) a zero = ground arith
get_elem?-append (x ∷ xs) a (suc j) = ground (arith, get_elem?-append xs a j)

abbrev pub present : Option ℕ → Bool
present none = false
present (some i) = true

module _ {C : Type 0} where
  abbrev pub lookup : CellKey → Cells C → Option C
  lookup key s = elim (s.index key) [
    | none ↦ none
    | some i ↦ elim (get_elem? s.cells i) [ none ↦ none | some stored ↦ some stored.cell ]
  ]

  -- The index has exactly the keys of the cells, each at its place, and each of these keys is in its
  -- bucket and in no other.
  pub record IsConsistent (s : Cells C) : Type 0 where
    pub found :
        (key : CellKey) (i : ℕ)
        → s.index key ≡ some i
        → (c : StoredCell C) × (get_elem? s.cells i ≡ some c) × (c.key ≡ key)
    pub indexed : (i : ℕ) (c : StoredCell C) → get_elem? s.cells i ≡ some c → s.index c.key ≡ some i
    pub bucketed :
        (b : BucketKey) (key : CellKey)
        → s.buckets b key ≡ (present (s.index key) && same_bucket b (bucket_for_cell_key key))
