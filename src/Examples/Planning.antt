-- ===== src/Examples/Planning.antt =====
-- Concrete cells of the planning map: three cells, of which the first is removed.
use dedalus.Base.{pos, ℕ, none, some, [], ◌≡◌, refl, false, if◌then◌else◌, arith}
use dedalus.Planning.{CellKey, Cells, create_cell, remove_cell_by_key, same_key}
use dedalus.Planning.Places.{IsConsistent, lookup}
use dedalus.Planning.Removal.{Removes, remove_cell_by_key-Removes}
use dedalus.Planning.Creation.{create_cell-IsConsistent}

abbrev key_at : ℕ → CellKey
key_at n = record { x = pos n; y = pos 0; z = pos 2 }

abbrev empty : Cells ℕ
empty = record { cells = []; index = λ key. none; buckets = λ b key. false }

empty-IsConsistent : IsConsistent empty
empty-IsConsistent = record {
  found = λ key i h. absurd (ground (arith, h));
  indexed = λ i c h. absurd (ground (arith, h));
  bucketed = λ b key. refl;
}

abbrev one : Cells ℕ
one = create_cell (key_at 1) 10 1 empty

abbrev two : Cells ℕ
two = create_cell (key_at 2) 20 2 one

new_key : one.index (key_at 2) ≡ none
unfolding create_cell same_key
new_key = refl

one-IsConsistent : IsConsistent one
one-IsConsistent = (create_cell-IsConsistent empty empty-IsConsistent (key_at 1) 10 1 refl).0

create_cell-IsConsistent_example :
    IsConsistent (create_cell (key_at 2) 20 2 one)
    × ((q : CellKey)
        → lookup q (create_cell (key_at 2) 20 2 one)
          ≡ (if same_key q (key_at 2) then some 20 else lookup q one))
create_cell-IsConsistent_example =
    create_cell-IsConsistent one one-IsConsistent (key_at 2) 20 2 new_key

two-IsConsistent : IsConsistent two
two-IsConsistent = (create_cell-IsConsistent one one-IsConsistent (key_at 2) 20 2 new_key).0

remove_cell_by_key-Removes_example : Removes two (key_at 1) (remove_cell_by_key (key_at 1) two)
remove_cell_by_key-Removes_example = remove_cell_by_key-Removes two two-IsConsistent (key_at 1)
