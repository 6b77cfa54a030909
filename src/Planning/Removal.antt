-- ===== src/Planning/Removal.antt =====
-- What removing a cell does to the map of keys to cells.
use dedalus.Base.{
  ℕ, ◌+◌, ◌-◌, ◌<◌, ◌==◌, Bool, ◌&&◌, true, false, Option, none, some, length, get_elem?,
  if◌then◌else◌, ◌≡◌, refl, sym, arith,
}
use dedalus.Planning.{
  set_bucket, BucketKey, same_bucket, bucket_for_cell_key, CellKey, Cells, StoredCell, drop_last,
  erase, put, remove_cell_by_key, same_key, same_key_refl, same_key-true, set_at, swap_out,
}
use dedalus.Planning.Places.{
  present, IsConsistent, get_elem?-drop_last, get_elem?-exists, get_elem?-inside, get_elem?-moved,
  lookup,
}

module _ {C : Type 0} where
  removed-bucketed :
      (s : Cells C) (consistent : IsConsistent s) (key : CellKey) (b : BucketKey) (k : CellKey)
      → set_bucket key false s.buckets b k
        ≡ (present (erase key s.index k) && same_bucket b (bucket_for_cell_key k))
  unfolding set_bucket
  removed-bucketed s consistent key b k =
      ground (arith, consistent.bucketed b k, same_key-true k key)

  module _ (s : Cells C) (consistent : IsConsistent s) (key : CellKey) (i : ℕ)
      (h : s.index key ≡ some i) (moved : StoredCell C)
      (last : get_elem? s.cells (length s.cells - 1) ≡ some moved)
      (inner : i + 1 < length s.cells) where
    abbrev after : Cells C
    after = record {
      cells = drop_last (set_at i moved s.cells);
      index = erase key (put moved.key i s.index);
      buckets = set_bucket key false s.buckets;
    }

    moved_key : same_key moved.key key ≡ false
    moved_key =
        ground
          (arith, same_key-true moved.key key, consistent.indexed (length s.cells - 1) moved last)

    after_index :
        (q : CellKey) (j : ℕ)
        → same_key q key ≡ false
        → same_key q moved.key ≡ false
        → after.index q ≡ some j
        → s.index q ≡ some j
    after_index q j hk hm e = ground arith

    moved-found :
        (q : CellKey) (j : ℕ) (is_key is_moved : Bool)
        → same_key q key ≡ is_key
        → same_key q moved.key ≡ is_moved
        → after.index q ≡ some j
        → (c : StoredCell C) × (get_elem? after.cells j ≡ some c) × (c.key ≡ q)
    moved-found q j true is_moved hk hm e = absurd (ground (arith, hk, e))
    moved-found q j false true hk hm e = (
      moved,
      ground (arith, get_elem?-moved s.cells i j moved inner, hk, hm, e),
      sym (same_key-true q moved.key hm),
    )
    moved-found q j false false hk hm e =
        let (c, at, same) = consistent.found q j (after_index q j hk hm e) in
        let (removed, there, its_key) = consistent.found key i h in
        (
          c,
          ground (
            arith,
            get_elem?-moved s.cells i j moved inner,
            get_elem?-inside s.cells j c at,
            same,
            at,
            there,
            its_key,
            last,
            hk,
            hm,
            same_key_refl q,
          ),
          same,
        )

    moved-indexed :
        (j : ℕ) (c : StoredCell C) → get_elem? after.cells j ≡ some c → after.index c.key ≡ some j
    moved-indexed j c e = ground (
      arith,
      get_elem?-moved s.cells i j moved inner,
      consistent.indexed j c,
      same_key-true c.key key,
      same_key-true c.key moved.key,
      same_key_refl moved.key,
      moved_key,
      consistent.indexed (length s.cells - 1) moved last,
    )

    moved-lookup :
        (q : CellKey) (m : Option ℕ) (is_moved : Bool)
        → s.index q ≡ m
        → same_key q moved.key ≡ is_moved
        → lookup q after ≡ (if same_key q key then none else lookup q s)
    moved-lookup q m true e hm = ground (
      arith,
      hm,
      same_key-true q moved.key hm,
      last,
      get_elem?-moved s.cells i i moved inner,
      consistent.indexed (length s.cells - 1) moved last,
    )
    moved-lookup q none false e hm = ground (arith, e, hm)
    moved-lookup q (some j) false e hm =
        let (c, at, same) = consistent.found q j e in
        let (removed, there, its_key) = consistent.found key i h in
        ground (
          arith,
          e,
          hm,
          at,
          same,
          there,
          its_key,
          last,
          get_elem?-moved s.cells i j moved inner,
          get_elem?-inside s.cells j c at,
          same_key_refl q,
        )

  -- Removing the last cell.
  module _ (s : Cells C) (consistent : IsConsistent s) (key : CellKey) (i : ℕ)
      (h : s.index key ≡ some i) (last : i + 1 ≡ length s.cells) where
    abbrev popped : Cells C
    popped = record {
      cells = drop_last s.cells;
      index = erase key s.index;
      buckets = set_bucket key false s.buckets;
    }

    popped-found :
        (q : CellKey) (j : ℕ) (is_key : Bool)
        → same_key q key ≡ is_key
        → popped.index q ≡ some j
        → (c : StoredCell C) × (get_elem? popped.cells j ≡ some c) × (c.key ≡ q)
    popped-found q j true hk e = absurd (ground (arith, hk, e))
    popped-found q j false hk e =
        let (c, at, same) = consistent.found q j (ground (arith, hk, e)) in
        let (removed, there, its_key) = consistent.found key i h in
        (
          c,
          ground (
            arith,
            get_elem?-drop_last s.cells j,
            get_elem?-inside s.cells j c at,
            at,
            same,
            there,
            its_key,
            hk,
            same_key_refl q,
          ),
          same,
        )

    popped-indexed :
        (j : ℕ) (c : StoredCell C) → get_elem? popped.cells j ≡ some c → popped.index c.key ≡ some j
    popped-indexed j c e =
        ground
          (arith, get_elem?-drop_last s.cells j, consistent.indexed j c, same_key-true c.key key)

    popped-lookup :
        (q : CellKey) (m : Option ℕ)
        → s.index q ≡ m
        → lookup q popped ≡ (if same_key q key then none else lookup q s)
    popped-lookup q none e = ground (arith, e)
    popped-lookup q (some j) e =
        let (c, at, same) = consistent.found q j e in
        let (removed, there, its_key) = consistent.found key i h in
        ground (
          arith,
          e,
          at,
          same,
          there,
          its_key,
          get_elem?-drop_last s.cells j,
          get_elem?-inside s.cells j c at,
          same_key_refl q,
        )

  -- `t` is `s` without the key, and consistent.
  pub record Removes (s : Cells C) (key : CellKey) (t : Cells C) : Type 0 where
    pub consistent : IsConsistent t
    pub lookups : (q : CellKey) → lookup q t ≡ (if same_key q key then none else lookup q s)

  module _ (s : Cells C) (consistent : IsConsistent s) (key : CellKey) where
    swapped-Removes :
        (i : ℕ) (at_end : Bool) (g : Option (StoredCell C))
        → s.index key ≡ some i
        → (i == length s.cells - 1) ≡ at_end
        → get_elem? s.cells (length s.cells - 1) ≡ g
        → Removes s key (
            if at_end
            then record {
              cells = drop_last s.cells;
              index = erase key s.index;
              buckets = set_bucket key false s.buckets;
            }
            else elim g [
              | none ↦ s
              | some moved ↦ record {
                cells = drop_last (set_at i moved s.cells);
                index = erase key (put moved.key i s.index);
                buckets = set_bucket key false s.buckets;
              }
            ])
    swapped-Removes i true g h e l =
        let (removed, there, its_key) = consistent.found key i h in
        let inside = get_elem?-inside s.cells i removed there in
        let last : i + 1 ≡ length s.cells = ground (arith, e, inside) in
        record {
          consistent = record {
            found = λ q j f. popped-found s consistent key i h last q j (same_key q key) refl f;
            indexed = popped-indexed s consistent key i h last;
            bucketed = λ b k. removed-bucketed s consistent key b k;
          };
          lookups = λ q. popped-lookup s consistent key i h last q (s.index q) refl;
        }
    swapped-Removes i false none h e l =
        let (removed, there, its_key) = consistent.found key i h in
        let inside = get_elem?-inside s.cells i removed there in
        let (c, some_last) =
          get_elem?-exists s.cells (length s.cells - 1) (ground (arith, inside)) in
        absurd (ground (arith, l, some_last))
    swapped-Removes i false (some moved) h e l =
        let (removed, there, its_key) = consistent.found key i h in
        let inside = get_elem?-inside s.cells i removed there in
        let inner : i + 1 < length s.cells = ground (arith, e, inside) in
        record {
          consistent = record {
            found = λ q j f.
                moved-found s consistent key i h moved l inner q j (same_key q key)
                  (same_key q moved.key) refl refl f;
            indexed = moved-indexed s consistent key i h moved l inner;
            bucketed = λ b k. ground (
              arith,
              removed-bucketed s consistent key b k,
              same_key-true k moved.key,
              consistent.indexed (length s.cells - 1) moved l,
            );
          };
          lookups = λ q.
              moved-lookup s consistent key i h moved l inner q (s.index q) (same_key q moved.key)
                refl refl;
        }

    indexed-Removes : (m : Option ℕ) → s.index key ≡ m → Removes s key (remove_cell_by_key key s)
    unfolding remove_cell_by_key swap_out
    indexed-Removes none h =
        rw (h, remove_cell_by_key)
          (record {
            consistent = consistent;
            lookups = λ q. ground (arith, h, same_key-true q key);
          })
    indexed-Removes (some i) h =
        rw (h, remove_cell_by_key)
          (swapped-Removes i (i == length s.cells - 1) (get_elem? s.cells (length s.cells - 1)) h
            refl refl)

    -- Removing a key from consistent cells, by the move of the last cell to its place, leaves
    -- consistent cells, without the key and with every other key's cell as before.
    pub remove_cell_by_key-Removes : Removes s key (remove_cell_by_key key s)
    remove_cell_by_key-Removes = indexed-Removes (s.index key) refl
