-- ===== src/Planning/Missing.antt =====
-- Creating a cell for a key unless it has one, as the two loops over the rows of the database do.
use dedalus.Base.{
  ℕ, Bool, true, false, Option, none, some, has_value, if◌then◌else◌, ◌≡◌, refl, ◌∙◌, arith,
}
use dedalus.Planning.{CellKey, Cells, create_cell, same_key, same_key-true}
use dedalus.Planning.Places.{IsConsistent, lookup}
use dedalus.Planning.Creation.{create_cell-IsConsistent}

abbrev pub or_else : {A : Type 0} → Option A → Option A → Option A
or_else none o = o
or_else (some a) o = some a

pub or_else_assoc :
    {A : Type 0} (a b c : Option A) → or_else (or_else a b) c ≡ or_else a (or_else b c)
or_else_assoc none b c = refl
or_else_assoc (some a) b c = refl

pub or_else_if :
    {A : Type 0} (b : Bool) (a : A) (o : Option A)
    → or_else (if b then some a else none) o ≡ (if b then some a else o)
or_else_if true a o = refl
or_else_if false a o = refl

module _ {C : Type 0} (s : Cells C) (consistent : IsConsistent s) (key : CellKey) (c : C)
    (seq : ℕ) where
  -- `t` has the cell under `key` unless `s` had one.
  unfoldable pub Adds : Cells C → Type 0
  Adds t =
      IsConsistent t
      × ((q : CellKey)
          → lookup q t ≡ or_else (lookup q s) (if same_key q key then some c else none))

  pub created-Adds : s.index key ≡ none → Adds (create_cell key c seq s)
  unfolding Adds
  created-Adds e =
      let (ok, looks) = create_cell-IsConsistent s consistent key c seq e in
      (ok, λ q. looks q ∙ at_key q (same_key q key) refl (lookup q s) refl)
    where
      at_key :
          (q : CellKey) (is_key : Bool)
          → same_key q key ≡ is_key
          → (o : Option C) → lookup q s ≡ o
          → (if is_key then some c else o) ≡ or_else o (if is_key then some c else none)
      at_key q is_key h none l = refl
      at_key q true h (some x) l = absurd (ground (arith, same_key-true q key h, e, l))
      at_key q false h (some x) l = refl

  pub kept-Adds : (i : ℕ) → s.index key ≡ some i → Adds s
  unfolding Adds
  kept-Adds i e = (consistent, λ q. at_key q (same_key q key) refl (lookup q s) refl)
    where
      at_key :
          (q : CellKey) (is_key : Bool)
          → same_key q key ≡ is_key
          → (o : Option C) → lookup q s ≡ o
          → o ≡ or_else o (if is_key then some c else none)
      at_key q is_key h (some x) l = refl
      at_key q false h none l = refl
      at_key q true h none l =
          let (sc, at, same) = consistent.found key i e in
          absurd (ground (arith, same_key-true q key h, e, l, at))

  pub missing-Adds :
      (m : Option ℕ) → s.index key ≡ m → Adds (if has_value m then s else create_cell key c seq s)
  missing-Adds none e = created-Adds e
  missing-Adds (some i) e = kept-Adds i e
