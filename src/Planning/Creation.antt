-- ===== src/Planning/Creation.antt =====
-- What creating a cell does to the map of keys to cells.
use dedalus.Base.{
  ℕ, Bool, ◌&&◌, true, false, Option, none, some, length, get_elem?, if◌then◌else◌, ◌≡◌, refl, sym,
  arith,
}
use dedalus.Planning.{
  set_bucket, BucketKey, same_bucket, bucket_for_cell_key, CellKey, Cells, StoredCell, create_cell,
  same_key, same_key_refl, same_key-true,
}
use dedalus.Planning.Places.{present, IsConsistent, get_elem?-append, get_elem?-inside, lookup}

module _ {C : Type 0} where
  module _ (s : Cells C) (consistent : IsConsistent s) (key : CellKey) (cell : C) (seq : ℕ)
      (fresh : s.index key ≡ none) where
    created-found :
        (q : CellKey) (j : ℕ) (is_key : Bool)
        → same_key q key ≡ is_key
        → (create_cell key cell seq s).index q ≡ some j
        → (c : StoredCell C) × (get_elem? (create_cell key cell seq s).cells j ≡ some c)
          × (c.key ≡ q)
    unfolding create_cell
    created-found q j true hk e = (
      record { key = key; cell = cell; write_seq = seq },
      ground (
        arith,
        get_elem?-append s.cells (record { key = key; cell = cell; write_seq = seq }) j,
        hk,
        e,
      ),
      sym (same_key-true q key hk),
    )
    created-found q j false hk e =
        let (c, at, same) = consistent.found q j (ground (arith, hk, e)) in
        (
          c,
          ground (
            arith,
            get_elem?-append s.cells (record { key = key; cell = cell; write_seq = seq }) j,
            get_elem?-inside s.cells j c at,
            at,
          ),
          same,
        )

    created-indexed :
        (j : ℕ) (c : StoredCell C)
        → get_elem? (create_cell key cell seq s).cells j ≡ some c
        → (create_cell key cell seq s).index c.key ≡ some j
    unfolding create_cell
    created-indexed j c e = ground (
      arith,
      get_elem?-append s.cells (record { key = key; cell = cell; write_seq = seq }) j,
      consistent.indexed j c,
      same_key-true c.key key,
      same_key_refl key,
      fresh,
    )

    created-lookup :
        (q : CellKey) (m : Option ℕ)
        → s.index q ≡ m
        → lookup q (create_cell key cell seq s) ≡ (if same_key q key then some cell else lookup q s)
    unfolding create_cell
    created-lookup q none e = ground (
      arith,
      e,
      get_elem?-append s.cells (record { key = key; cell = cell; write_seq = seq })
          (length s.cells),
    )
    created-lookup q (some j) e =
        let (c, at, same) = consistent.found q j e in
        ground (
          arith,
          e,
          at,
          get_elem?-inside s.cells j c at,
          get_elem?-append s.cells (record { key = key; cell = cell; write_seq = seq }) j,
          get_elem?-append s.cells (record { key = key; cell = cell; write_seq = seq })
              (length s.cells),
        )

    created-bucketed :
        (b : BucketKey) (k : CellKey)
        → (create_cell key cell seq s).buckets b k ≡ (
            present ((create_cell key cell seq s).index k) && same_bucket b (bucket_for_cell_key k))
    unfolding create_cell set_bucket
    created-bucketed b k = ground (arith, consistent.bucketed b k, same_key-true k key)

    -- Creating a cell under a key that is not there keeps consistent cells consistent, gives the key
    -- that cell, and leaves every other key's cell as before.
    pub create_cell-IsConsistent :
        IsConsistent (create_cell key cell seq s)
        × ((q : CellKey)
            → lookup q (create_cell key cell seq s)
              ≡ (if same_key q key then some cell else lookup q s))
    create_cell-IsConsistent = (
      record {
        found = λ q j f. created-found q j (same_key q key) refl f;
        indexed = created-indexed;
        bucketed = created-bucketed;
      },
      λ q. created-lookup q (s.index q) refl,
    )
