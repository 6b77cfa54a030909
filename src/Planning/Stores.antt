-- ===== src/Planning/Stores.antt =====
-- What finding a cell, and writing to it in place, do to the map of keys to cells.
use dedalus.Base.{
  ℕ, ◌<◌, ◌==◌, Bool, true, false, Option, none, some, get_elem?, length, if◌then◌else◌, ◌≡◌, refl,
  sym, ◌∙◌, arith,
}
use dedalus.Planning.{CellKey, Cells, StoredCell, same_key, same_key_refl, same_key-true, set_at}
use dedalus.Planning.Places.{IsConsistent, get_elem?-inside, get_elem?-set_at, lookup}
use dedalus.Planning.Update.{find, store}

module _ {C : Type 0} where
  -- The cell of a key, found at a place.
  pub record IsFound (key : CellKey) (s : Cells C) (i : ℕ) (sc : StoredCell C) : Type 0 where
    pub index : s.index key ≡ some i
    pub place : get_elem? s.cells i ≡ some sc
    pub key_same : sc.key ≡ key
    pub lookup_same : lookup key s ≡ some sc.cell

  unfound :
      (s : Cells C)
      → IsConsistent s
      → (key : CellKey) (m : Option ℕ) → s.index key ≡ m
      → find key s ≡ none
      → (s.index key ≡ none) × (lookup key s ≡ none)
  unfolding find
  unfound s consistent key none e h = ground (arith, e)
  unfound s consistent key (some i) e h =
      let (c, at, same) = consistent.found key i e in absurd (ground (arith, e, at, h))

  pub find-none :
      (s : Cells C)
      → IsConsistent s
      → (key : CellKey) → find key s ≡ none
      → (s.index key ≡ none) × (lookup key s ≡ none)
  find-none s consistent key h = unfound s consistent key (s.index key) refl h

  find-IsFound :
      (s : Cells C)
      → IsConsistent s
      → (key : CellKey) (m : Option ℕ) (i : ℕ) (sc : StoredCell C) → s.index key ≡ m
      → find key s ≡ some (i, sc)
      → IsFound key s i sc
  unfolding find
  find-IsFound s consistent key none i sc e h = absurd (ground (arith, e, h))
  find-IsFound s consistent key (some j) i sc e h =
      let (c, at, same) = consistent.found key j e in
      record {
        index = ground (arith, e, at, h);
        place = ground (arith, e, at, h);
        key_same = ground (arith, e, at, same, h);
        lookup_same = ground (arith, e, at, h);
      }

  pub find-some :
      (s : Cells C)
      → IsConsistent s
      → (key : CellKey) (i : ℕ) (sc : StoredCell C) → find key s ≡ some (i, sc)
      → IsFound key s i sc
  find-some s consistent key i sc h = find-IsFound s consistent key (s.index key) i sc refl h

  module _ (s : Cells C) (consistent : IsConsistent s) (key : CellKey) (i : ℕ) (sc : StoredCell C)
      (f : IsFound key s i sc) (t : StoredCell C) (same : t.key ≡ key) where
    inside : i < length s.cells
    inside = get_elem?-inside s.cells i sc f.place

    -- Another key's place is another place.
    apart :
        (q : CellKey) (j : ℕ) (c : StoredCell C)
        → same_key q key ≡ false
        → get_elem? s.cells j ≡ some c
        → c.key ≡ q
        → (j == i) ≡ false
    apart q j c hk at its = ground (arith, f.place, f.key_same, same_key_refl q)

    lookup_at :
        (q : CellKey) (m : Option ℕ) (is_key : Bool)
        → s.index q ≡ m
        → same_key q key ≡ is_key
        → lookup q (store i t s) ≡ (if is_key then some t.cell else lookup q s)
    unfolding store
    lookup_at q m true e hk =
        ground
          (arith, same_key-true q key hk, f.index, inside, get_elem?-set_at i t s.cells i inside)
    lookup_at q none false e hk = ground (arith, e)
    lookup_at q (some j) false e hk =
        let (c, at, its) = consistent.found q j e in
        ground (arith, e, at, apart q j c hk at its, get_elem?-set_at i t s.cells j inside)

    pub store-lookup :
        (q : CellKey)
        → lookup q (store i t s) ≡ (if same_key q key then some t.cell else lookup q s)
    store-lookup q = lookup_at q (s.index q) (same_key q key) refl refl

    stored_found :
        (q : CellKey) (j : ℕ) (is_key : Bool)
        → same_key q key ≡ is_key
        → s.index q ≡ some j
        → (c : StoredCell C) × (get_elem? (set_at i t s.cells) j ≡ some c) × (c.key ≡ q)
    stored_found q j true hk e = (
      t,
      ground (arith, same_key-true q key hk, f.index, e, get_elem?-set_at i t s.cells j inside),
      same ∙ sym (same_key-true q key hk),
    )
    stored_found q j false hk e =
        let (c, at, its) = consistent.found q j e in
        (c, ground (arith, at, apart q j c hk at its, get_elem?-set_at i t s.cells j inside), its)

    pub store-IsConsistent : IsConsistent (store i t s)
    unfolding store
    store-IsConsistent = record {
      found = λ q j h. stored_found q j (same_key q key) refl h;
      indexed = λ j c h.
          ground
            (arith, get_elem?-set_at i t s.cells j inside, same, f.index, consistent.indexed j c);
      bucketed = consistent.bucketed;
    }
