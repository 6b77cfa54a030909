-- ===== src/Planning/Elements.antt =====
-- The elements of the vector of cells after each way to change it.
use dedalus.Base.{
  ℕ, zero, suc, ◌-◌, ◌==◌, Bool, true, false, Option, none, some, List, [], ◌∷◌, ◌++◌, length,
  get_elem?, if◌then◌else◌, ◌≡◌, refl, sym, ap, ◌∙◌, ◌⊎◌, inl, inr, arith,
}
use dedalus.Planning.{
  CellKey, Cells, StoredCell, drop_last, erase, put, remove_cell_by_key, set_at, set_bucket,
  swap_out,
}
use dedalus.Planning.Places.{get_elem?-drop_last}

-- An element of a vector.
abbrev pub Has : {A : Type 0} → List A → A → Type 0
Has xs a = (i : ℕ) × (get_elem? xs i ≡ some a)

pub Has-set_at :
    {A : Type 0} (i : ℕ) (b : A) (xs : List A) (a : A) → Has (set_at i b xs) a → (a ≡ b) ⊎ Has xs a
Has-set_at i b [] a (j, e) = inr (j, e)
Has-set_at zero b (x ∷ xs) a (zero, e) = inl (ground (arith, e))
Has-set_at zero b (x ∷ xs) a (suc j, e) = inr (suc j, e)
Has-set_at (suc i) b (x ∷ xs) a (zero, e) = inr (zero, e)
Has-set_at (suc i) b (x ∷ xs) a (suc j, e) = elim (Has-set_at i b xs a (j, e)) [
  | inl same ↦ inl same
  | inr (k, at) ↦ inr (suc k, at)
]

pub Has-append : {A : Type 0} (xs : List A) (b a : A) → Has (xs ++ (b ∷ [])) a → (a ≡ b) ⊎ Has xs a
Has-append [] b a (zero, e) = inl (ground (arith, e))
Has-append [] b a (suc j, e) = absurd (ground (arith, e))
Has-append (x ∷ xs) b a (zero, e) = inr (zero, e)
Has-append (x ∷ xs) b a (suc j, e) = elim (Has-append xs b a (j, e)) [
  | inl same ↦ inl same
  | inr (k, at) ↦ inr (suc k, at)
]

pub Has-drop_last : {A : Type 0} (xs : List A) (a : A) → Has (drop_last xs) a → Has xs a
Has-drop_last xs a (j, e) = (j, ground (arith, get_elem?-drop_last xs j, e))

module _ {C : Type 0} where
  swapped_Has :
      (s : Cells C) (key : CellKey) (i : ℕ) (c : StoredCell C)
      → Has (swap_out key i s).cells c
      → Has s.cells c
  unfolding swap_out
  swapped_Has s key i c h =
      decide (i == length s.cells - 1) (get_elem? s.cells (length s.cells - 1)) refl h
    where
      decide :
          (at_end : Bool) (g : Option (StoredCell C))
          → get_elem? s.cells (length s.cells - 1) ≡ g
          → Has
              (if at_end
                then record {
                  cells = drop_last s.cells;
                  index = erase key s.index;
                  buckets = set_bucket key false s.buckets;
                }
                else elim g as (λ x. Cells C) [
                  | none ↦ s
                  | some moved ↦ record {
                    cells = drop_last (set_at i moved s.cells);
                    index = erase key (put moved.key i s.index);
                    buckets = set_bucket key false s.buckets;
                  }
                ]).cells
              c
          → Has s.cells c
      decide true g l m = Has-drop_last s.cells c m
      decide false none l m = m
      decide false (some moved) l m =
          elim (Has-set_at i moved s.cells c (Has-drop_last (set_at i moved s.cells) c m)) [
            | inl same ↦ (length s.cells - 1, l ∙ ap some (sym same))
            | inr old ↦ old
          ]

  pub Has-remove_cell_by_key :
      (s : Cells C) (key : CellKey) (c : StoredCell C)
      → Has (remove_cell_by_key key s).cells c
      → Has s.cells c
  unfolding remove_cell_by_key
  Has-remove_cell_by_key s key c h = decide (s.index key) h
    where
      decide :
          (m : Option ℕ)
          → Has (elim m as (λ x. Cells C) [ none ↦ s | some i ↦ swap_out key i s ]).cells c
          → Has s.cells c
      decide none m = m
      decide (some i) m = swapped_Has s key i c m
