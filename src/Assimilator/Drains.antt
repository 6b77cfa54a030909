-- ===== src/Assimilator/Drains.antt =====
-- How much of the queue a drain takes.
use dedalus.Base.{
  ℤ, ℕ, zero, suc, ◌+◌, ◌-◌, min, Bool, List, [], ◌∷◌, length, if◌then◌else◌, ◌≡◌, refl, arith,
}
use dedalus.Assimilator.{
  MissionMapAssimilationState, MissionMapAssimilator, TraversabilityMap, drain_loop,
  drain_snapshots, empty,
}
use dedalus.Assimilator.Accounts.{with_pending}

module _ {S M : Type 0} (map : TraversabilityMap S M) where
  -- The state that a drain starts with.
  abbrev pub begun :
      MissionMapAssimilationState → MissionMapAssimilator S M → MissionMapAssimilator S M
  begun active a = record a {
    status = record a.status {
      state = if empty a.pending_snapshots then MissionMapAssimilationState.idle else active;
    };
  }

  -- `b` is `a` with up to `n` snapshots of the queue applied.
  pub record Drains (a : MissionMapAssimilator S M) (n : ℕ) (b : MissionMapAssimilator S M)
      : Type 0 where
    pub left : length b.pending_snapshots ≡ length a.pending_snapshots - n
    pub drained :
        b.status.drained_snapshot_count
        ≡ a.status.drained_snapshot_count + min n (length a.pending_snapshots)
    pub state_same : b.status.state ≡ a.status.state
    pub config_same : b.config ≡ a.config

  pub drain_loop-Drains :
      (limit : ℕ) (now : ℤ) (clearance : Bool) (pending : List S) (a : MissionMapAssimilator S M)
      → Drains
          (with_pending pending a)
          limit
          (drain_loop map limit now clearance (with_pending pending a))
  unfolding drain_loop
  drain_loop-Drains zero now clearance pending a = record {
    left = omega arith;
    drained = omega arith;
    state_same = refl;
    config_same = refl;
  }
  drain_loop-Drains (suc limit) now clearance [] a = record {
    left = omega arith;
    drained = omega arith;
    state_same = refl;
    config_same = refl;
  }
  drain_loop-Drains (suc limit) now clearance (s ∷ rest) a =
      let r = drain_loop-Drains limit now clearance rest (record a {
        pending_snapshots = rest;
        traversability_map = map.update s now clearance a.traversability_map;
        status = record a.status {
          drained_snapshot_count = a.status.drained_snapshot_count + 1;
          compacted_generation = a.status.compacted_generation + 1;
        };
      }) in
      record {
        left = omega (arith, r.left);
        drained = omega (arith, r.drained);
        state_same = r.state_same;
        config_same = r.config_same;
      }

  pub drain_snapshots-Drains :
      (now : ℤ) (max_snapshots : ℕ) (active : MissionMapAssimilationState) (clearance : Bool)
      (a : MissionMapAssimilator S M)
      → (length (drain_snapshots map now max_snapshots active clearance a).pending_snapshots
          ≡ length a.pending_snapshots - max_snapshots)
        × ((drain_snapshots map now max_snapshots active clearance a).status.drained_snapshot_count
            ≡ a.status.drained_snapshot_count + min max_snapshots (length a.pending_snapshots))
        × ((drain_snapshots map now max_snapshots active clearance a).config ≡ a.config)
  unfolding drain_snapshots
  drain_snapshots-Drains now max_snapshots active clearance a =
      let r =
        drain_loop-Drains (min max_snapshots (length a.pending_snapshots)) now clearance
          a.pending_snapshots (begun active a) in
      (omega (arith, r.left), omega (arith, r.drained), r.config_same)
