-- ===== src/Assimilator/Accounts.antt =====
-- What becomes of every snapshot: applied to the map, dropped, or still pending, in the order of
-- arrival.
use dedalus.Base.{
  ℤ, ℕ, suc, ◌+◌, Bool, List, [], ◌∷◌, ◌++◌, append_nil, ◌≡◌, refl, sym, ap, ◌∙◌, arith,
}
use dedalus.Assimilator.{MissionMapAssimilator, TraversabilityMap}

-- What became of one snapshot.
pub data Handling (S : Type 0) : Type 0 where
  applied : S → ℤ → Bool → Handling S
  dropped : S → Handling S

abbrev pub with_pending :
    {S M : Type 0} → List S → MissionMapAssimilator S M → MissionMapAssimilator S M
with_pending pending a = record a { pending_snapshots = pending }

pub append_assoc : {A : Type 0} (xs ys zs : List A) → (xs ++ ys) ++ zs ≡ xs ++ (ys ++ zs)
append_assoc [] ys zs = refl
append_assoc (x ∷ xs) ys zs = ap (λ l. x ∷ l) (append_assoc xs ys zs)

module _ {S M : Type 0} (map : TraversabilityMap S M) where
  abbrev pub snapshot_of : Handling S → S
  snapshot_of (applied s now clearance) = s
  snapshot_of (dropped s) = s

  abbrev pub snapshots_of : List (Handling S) → List S
  snapshots_of [] = []
  snapshots_of (h ∷ handled) = snapshot_of h ∷ snapshots_of handled

  abbrev pub applied_count : List (Handling S) → ℕ
  applied_count [] = 0
  applied_count (applied s now clearance ∷ handled) = suc (applied_count handled)
  applied_count (dropped s ∷ handled) = applied_count handled

  abbrev pub dropped_count : List (Handling S) → ℕ
  dropped_count [] = 0
  dropped_count (applied s now clearance ∷ handled) = dropped_count handled
  dropped_count (dropped s ∷ handled) = suc (dropped_count handled)

  -- The map after the applied snapshots.
  abbrev pub replay : List (Handling S) → M → M
  replay [] m = m
  replay (applied s now clearance ∷ handled) m = replay handled (map.update s now clearance m)
  replay (dropped s ∷ handled) m = replay handled m

  snapshots_of-append :
      (xs ys : List (Handling S)) → snapshots_of (xs ++ ys) ≡ snapshots_of xs ++ snapshots_of ys
  snapshots_of-append [] ys = refl
  snapshots_of-append (h ∷ xs) ys = ap (λ l. snapshot_of h ∷ l) (snapshots_of-append xs ys)

  replay-append :
      (xs ys : List (Handling S)) (m : M) → replay (xs ++ ys) m ≡ replay ys (replay xs m)
  replay-append [] ys m = refl
  replay-append (applied s now clearance ∷ xs) ys m =
      replay-append xs ys (map.update s now clearance m)
  replay-append (dropped s ∷ xs) ys m = replay-append xs ys m

  counts-append :
      (xs ys : List (Handling S))
      → (applied_count (xs ++ ys) ≡ applied_count xs + applied_count ys)
        × (dropped_count (xs ++ ys) ≡ dropped_count xs + dropped_count ys)
  counts-append [] ys = (omega arith, omega arith)
  counts-append (applied s now clearance ∷ xs) ys =
      let (a, b) = counts-append xs ys in (omega (arith, a), omega (arith, b))
  counts-append (dropped s ∷ xs) ys =
      let (a, b) = counts-append xs ys in (omega (arith, a), omega (arith, b))

  -- From `a` to `b`, while the snapshots of `added` arrived.
  pub record Accounts (a : MissionMapAssimilator S M) (added : List S)
      (b : MissionMapAssimilator S M) : Type 0 where
    pub handled : List (Handling S)
    pub order : a.pending_snapshots ++ added ≡ snapshots_of handled ++ b.pending_snapshots
    pub map_after : b.traversability_map ≡ replay handled a.traversability_map
    pub drained :
        b.status.drained_snapshot_count ≡ a.status.drained_snapshot_count + applied_count handled
    pub dropped_total :
        b.status.dropped_snapshot_count ≡ a.status.dropped_snapshot_count + dropped_count handled
    pub generation :
        b.status.compacted_generation ≡ a.status.compacted_generation + applied_count handled
    pub config_same : b.config ≡ a.config

  pub Accounts-trans :
      (a b c : MissionMapAssimilator S M) (x y : List S)
      → Accounts a x b
      → Accounts b y c
      → Accounts a (x ++ y) c
  Accounts-trans a b c x y f g = record {
    handled = f.handled ++ g.handled;
    order =
        sym (append_assoc a.pending_snapshots x y)
        ∙ ap (λ l. l ++ y) f.order
        ∙ append_assoc (snapshots_of f.handled) b.pending_snapshots y
        ∙ ap (λ l. snapshots_of f.handled ++ l) g.order
        ∙ sym (append_assoc (snapshots_of f.handled) (snapshots_of g.handled) c.pending_snapshots)
        ∙ ap (λ l. l ++ c.pending_snapshots) (sym (snapshots_of-append f.handled g.handled));
    map_after =
        g.map_after
        ∙ ap (replay g.handled) f.map_after
        ∙ sym (replay-append f.handled g.handled a.traversability_map);
    drained = omega (arith, f.drained, g.drained, (counts-append f.handled g.handled).0);
    dropped_total =
        omega (arith, f.dropped_total, g.dropped_total, (counts-append f.handled g.handled).1);
    generation = omega (arith, f.generation, g.generation, (counts-append f.handled g.handled).0);
    config_same = g.config_same ∙ f.config_same;
  }

  -- A step that leaves queue, map and counts.
  pub Accounts-idle :
      (a b : MissionMapAssimilator S M)
      → b.pending_snapshots ≡ a.pending_snapshots
      → b.traversability_map ≡ a.traversability_map
      → b.config ≡ a.config
      → b.status.drained_snapshot_count ≡ a.status.drained_snapshot_count
      → b.status.dropped_snapshot_count ≡ a.status.dropped_snapshot_count
      → b.status.compacted_generation ≡ a.status.compacted_generation
      → Accounts a [] b
  Accounts-idle a b p m c r o g = record {
    handled = [];
    order = append_nil a.pending_snapshots ∙ sym p;
    map_after = m;
    drained = omega (arith, r);
    dropped_total = omega (arith, o);
    generation = omega (arith, g);
    config_same = c;
  }
