-- ===== src/Assimilator/Calls.antt =====
-- Every sequence of calls accounts for every snapshot.
use dedalus.Base.{
  ℤ, ℕ, zero, suc, ◌+◌, min, Bool, true, false, leb, List, [], ◌∷◌, ◌++◌, length, append_nil,
  if◌then◌else◌, ◌≡◌, refl, sym, ap, ◌∙◌, arith,
}
use dedalus.Assimilator.{
  MissionMapAssimilationState, MissionMapAssimilationStatus, MissionMapAssimilator,
  TraversabilityMap, drain_loop, drain_snapshots, drop_oldest, empty, enqueue_mission_obstacle_map,
  flush_after_landing, flush_loop, tick, tick_high_priority,
}
use dedalus.Assimilator.Accounts.{
  Accounts, Accounts-idle, Accounts-trans, Handling, append_assoc, applied_count, dropped_count,
  replay, snapshots_of, with_pending,
}

pub data Call (S : Type 0) : Type 0 where
  enqueue : S → Call S
  background high_priority landed : ℤ → Call S

abbrev pub arrivals : {S : Type 0} → List (Call S) → List S
arrivals [] = []
arrivals (Call.enqueue s ∷ calls) = s ∷ arrivals calls
arrivals (Call.background now ∷ calls) = arrivals calls
arrivals (Call.high_priority now ∷ calls) = arrivals calls
arrivals (Call.landed now ∷ calls) = arrivals calls

module _ {S M : Type 0} (map : TraversabilityMap S M) where
  abbrev pub call : Call S → MissionMapAssimilator S M → MissionMapAssimilator S M
  call (Call.enqueue s) a = enqueue_mission_obstacle_map s a
  call (Call.background now) a = tick map now a
  call (Call.high_priority now) a = tick_high_priority map now a
  call (Call.landed now) a = (flush_after_landing map now a).0

  abbrev pub run : List (Call S) → MissionMapAssimilator S M → MissionMapAssimilator S M
  run [] a = a
  run (c ∷ calls) a = run calls (call c a)

  -- What the loop of an arrival drops.
  pub record Drops (pending : List S) (status : MissionMapAssimilationStatus)
      (t : List S × MissionMapAssimilationStatus) : Type 0 where
    pub handled : List (Handling S)
    pub order : pending ≡ snapshots_of map handled ++ t.0
    pub none_applied : applied_count map handled ≡ 0
    pub map_same : (m : M) → replay map handled m ≡ m
    pub dropped_after :
        t.1.dropped_snapshot_count ≡ status.dropped_snapshot_count + dropped_count map handled
    pub drained_same : t.1.drained_snapshot_count ≡ status.drained_snapshot_count
    pub generation_same : t.1.compacted_generation ≡ status.compacted_generation
    pub state_same : t.1.state ≡ status.state

  kept-Drops :
      (pending : List S) (status : MissionMapAssimilationStatus)
      → Drops pending status (pending, status)
  kept-Drops pending status = record {
    handled = [];
    order = refl;
    none_applied = refl;
    map_same = λ m. refl;
    dropped_after = omega arith;
    drained_same = refl;
    generation_same = refl;
    state_same = refl;
  }

  pub drop_oldest-Drops :
      (capacity : ℕ) (pending : List S) (status : MissionMapAssimilationStatus)
      → Drops pending status (drop_oldest capacity pending status)
  unfolding drop_oldest
  drop_oldest-Drops capacity [] status = kept-Drops [] status
  drop_oldest-Drops capacity (s ∷ pending) status =
      decide (leb capacity (length (s ∷ pending))) (drop_oldest-Drops capacity pending counted)
    where
      counted : MissionMapAssimilationStatus
      counted = record status { dropped_snapshot_count = status.dropped_snapshot_count + 1 }

      decide :
          (full : Bool)
          → Drops pending counted (drop_oldest capacity pending counted)
          → Drops
              (s ∷ pending)
              status
              (if full then drop_oldest capacity pending counted else (s ∷ pending, status))
      decide false r = kept-Drops (s ∷ pending) status
      decide true r = record {
        handled = Handling.dropped s ∷ r.handled;
        order = ap (λ l. s ∷ l) r.order;
        none_applied = r.none_applied;
        map_same = r.map_same;
        dropped_after = omega (arith, r.dropped_after);
        drained_same = r.drained_same;
        generation_same = r.generation_same;
        state_same = r.state_same;
      }

  enqueue-Accounts :
      (s : S) (a : MissionMapAssimilator S M)
      → Accounts map a (s ∷ []) (enqueue_mission_obstacle_map s a)
  unfolding enqueue_mission_obstacle_map
  enqueue-Accounts s a =
      let r = drop_oldest-Drops a.config.max_pending_snapshots a.pending_snapshots a.status in
      record {
        handled = r.handled;
        order =
            ap (λ l. l ++ (s ∷ [])) r.order
            ∙ append_assoc (snapshots_of map r.handled)
                (drop_oldest a.config.max_pending_snapshots a.pending_snapshots a.status).0
                (s ∷ []);
        map_after = sym (r.map_same a.traversability_map);
        drained = omega (arith, r.drained_same, r.none_applied);
        dropped_total = r.dropped_after;
        generation = omega (arith, r.generation_same, r.none_applied);
        config_same = refl;
      }

  -- The loop applies the front of the queue.
  abbrev pub applied_front :
      S → List S → ℤ → Bool → MissionMapAssimilator S M → MissionMapAssimilator S M
  applied_front s rest now clearance a = record a {
    pending_snapshots = rest;
    traversability_map = map.update s now clearance a.traversability_map;
    status = record a.status {
      drained_snapshot_count = a.status.drained_snapshot_count + 1;
      compacted_generation = a.status.compacted_generation + 1;
    };
  }

  applied_front-Accounts :
      (s : S) (rest : List S) (now : ℤ) (clearance : Bool) (a : MissionMapAssimilator S M)
      → a.pending_snapshots ≡ s ∷ rest
      → Accounts map a [] (applied_front s rest now clearance a)
  applied_front-Accounts s rest now clearance a e = record {
    handled = Handling.applied s now clearance ∷ [];
    order = append_nil a.pending_snapshots ∙ e;
    map_after = refl;
    drained = refl;
    dropped_total = omega arith;
    generation = refl;
    config_same = refl;
  }

  Accounts-refl : (a : MissionMapAssimilator S M) → Accounts map a [] a
  Accounts-refl a = Accounts-idle map a a refl refl refl refl refl refl

  drain_loop-Accounts :
      (limit : ℕ) (now : ℤ) (clearance : Bool) (pending : List S) (a : MissionMapAssimilator S M)
      → Accounts map
          (with_pending pending a)
          []
          (drain_loop map limit now clearance (with_pending pending a))
  unfolding drain_loop
  drain_loop-Accounts zero now clearance pending a = Accounts-refl (with_pending pending a)
  drain_loop-Accounts (suc limit) now clearance [] a = Accounts-refl (with_pending [] a)
  drain_loop-Accounts (suc limit) now clearance (s ∷ rest) a =
      let front = applied_front s rest now clearance a in
      Accounts-trans map (with_pending (s ∷ rest) a) front
        (drain_loop map limit now clearance front) [] []
        (applied_front-Accounts s rest now clearance (with_pending (s ∷ rest) a) refl)
        (drain_loop-Accounts limit now clearance rest front)

  drain_snapshots-Accounts :
      (now : ℤ) (max_snapshots : ℕ) (active : MissionMapAssimilationState) (clearance : Bool)
      (a : MissionMapAssimilator S M)
      → Accounts map a [] (drain_snapshots map now max_snapshots active clearance a)
  unfolding drain_snapshots
  drain_snapshots-Accounts now max_snapshots active clearance a =
      let begun : MissionMapAssimilator S M = record a {
        status = record a.status {
          state = if empty a.pending_snapshots then MissionMapAssimilationState.idle else active;
        };
      } in
      let drained =
        drain_loop-Accounts (min max_snapshots (length a.pending_snapshots)) now clearance
          a.pending_snapshots begun in
      record {
        handled = drained.handled;
        order = drained.order;
        map_after = drained.map_after;
        drained = drained.drained;
        dropped_total = drained.dropped_total;
        generation = drained.generation;
        config_same = drained.config_same;
      }

  flush_loop-Accounts :
      (ticks : ℕ) (now : ℤ) (pending : List S) (a : MissionMapAssimilator S M)
      → Accounts map (with_pending pending a) [] (flush_loop map ticks now (with_pending pending a))
  unfolding flush_loop tick_high_priority
  flush_loop-Accounts zero now pending a = Accounts-refl (with_pending pending a)
  flush_loop-Accounts (suc ticks) now [] a = Accounts-refl (with_pending [] a)
  flush_loop-Accounts (suc ticks) now (s ∷ rest) a =
      let before = with_pending (s ∷ rest) a in
      let ticked = tick_high_priority map now before in
      Accounts-trans map before ticked (flush_loop map ticks now ticked) [] []
        (drain_snapshots-Accounts now a.config.max_snapshots_per_high_priority_tick
          MissionMapAssimilationState.post_landing_finalizing true before)
        (flush_loop-Accounts ticks now ticked.pending_snapshots ticked)

  flush-Accounts :
      (now : ℤ) (a : MissionMapAssimilator S M)
      → Accounts map a [] (flush_after_landing map now a).0
  unfolding flush_after_landing
  flush-Accounts now a =
      let flushed =
        flush_loop-Accounts a.config.max_post_landing_flush_ticks now a.pending_snapshots
          (record a {
            status = record a.status {
              state = MissionMapAssimilationState.post_landing_finalizing;
            };
          }) in
      record {
        handled = flushed.handled;
        order = flushed.order;
        map_after = flushed.map_after;
        drained = flushed.drained;
        dropped_total = flushed.dropped_total;
        generation = flushed.generation;
        config_same = flushed.config_same;
      }

  tick-Accounts : (now : ℤ) (a : MissionMapAssimilator S M) → Accounts map a [] (tick map now a)
  unfolding tick
  tick-Accounts now a =
      drain_snapshots-Accounts now a.config.max_snapshots_per_background_tick
        MissionMapAssimilationState.background_assimilating false a

  high-Accounts :
      (now : ℤ) (a : MissionMapAssimilator S M) → Accounts map a [] (tick_high_priority map now a)
  unfolding tick_high_priority
  high-Accounts now a =
      drain_snapshots-Accounts now a.config.max_snapshots_per_high_priority_tick
        MissionMapAssimilationState.post_landing_finalizing true a

  -- Over any calls of enqueue, of the two ticks and of the flush, the snapshots that were pending,
  -- followed by those that arrived, are in their order: those handled, each applied to the map or
  -- dropped, and those pending. The map is the old one with exactly the applied ones applied in that
  -- order, and the counters count the applied and the dropped.
  pub run-Accounts :
      (calls : List (Call S)) (a : MissionMapAssimilator S M)
      → Accounts map a (arrivals calls) (run calls a)
  run-Accounts [] a = Accounts-refl a
  run-Accounts (Call.enqueue s ∷ calls) a =
      Accounts-trans map a _ _ (s ∷ []) (arrivals calls) (enqueue-Accounts s a)
        (run-Accounts calls (enqueue_mission_obstacle_map s a))
  run-Accounts (Call.background now ∷ calls) a =
      Accounts-trans map a _ _ [] (arrivals calls) (tick-Accounts now a)
        (run-Accounts calls (tick map now a))
  run-Accounts (Call.high_priority now ∷ calls) a =
      Accounts-trans map a _ _ [] (arrivals calls) (high-Accounts now a)
        (run-Accounts calls (tick_high_priority map now a))
  run-Accounts (Call.landed now ∷ calls) a =
      Accounts-trans map a _ _ [] (arrivals calls) (flush-Accounts now a)
        (run-Accounts calls (flush_after_landing map now a).0)
