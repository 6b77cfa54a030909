-- ===== src/Assimilator/Flush.antt =====
-- The flush after landing: how much its bounded loop gets done.
use dedalus.Base.{
  ℤ, ℕ, zero, suc, ◌+◌, ◌-◌, ◌*◌, min, true, not, leb, List, [], ◌∷◌, length, if◌then◌else◌, ◌≡◌,
  refl, sym, ap, ◌∙◌, arith,
}
use dedalus.Assimilator.{
  MissionMapAssimilationState, MissionMapAssimilator, MissionMapFlushResult, TraversabilityMap,
  empty, flush_after_landing, flush_loop, tick_high_priority,
}
use dedalus.Assimilator.Accounts.{with_pending}
use dedalus.Assimilator.Drains.{drain_snapshots-Drains}

module _ {S M : Type 0} (map : TraversabilityMap S M) where
  tick_drained :
      (now : ℤ) (a : MissionMapAssimilator S M)
      → (length (tick_high_priority map now a).pending_snapshots
          ≡ length a.pending_snapshots - a.config.max_snapshots_per_high_priority_tick)
        × ((tick_high_priority map now a).status.drained_snapshot_count
            ≡ a.status.drained_snapshot_count
              + min a.config.max_snapshots_per_high_priority_tick (length a.pending_snapshots))
        × ((tick_high_priority map now a).config ≡ a.config)
  unfolding tick_high_priority
  tick_drained now a =
      drain_snapshots-Drains map now a.config.max_snapshots_per_high_priority_tick
        MissionMapAssimilationState.post_landing_finalizing true a

  -- What the loop takes.
  record Flushes (a : MissionMapAssimilator S M) (n : ℕ) (b : MissionMapAssimilator S M)
      : Type 0 where
    left : length b.pending_snapshots ≡ length a.pending_snapshots - n
    drained :
        b.status.drained_snapshot_count
        ≡ a.status.drained_snapshot_count + min n (length a.pending_snapshots)
    config_same : b.config ≡ a.config

  flush_loop-Flushes :
      (ticks : ℕ) (now : ℤ) (pending : List S) (a : MissionMapAssimilator S M)
      → Flushes
          (with_pending pending a)
          (ticks * a.config.max_snapshots_per_high_priority_tick)
          (flush_loop map ticks now (with_pending pending a))
  unfolding flush_loop
  flush_loop-Flushes zero now pending a = record {
    left = omega arith;
    drained = omega arith;
    config_same = refl;
  }
  flush_loop-Flushes (suc ticks) now [] a = record {
    left = omega arith;
    drained = omega arith;
    config_same = refl;
  }
  flush_loop-Flushes (suc ticks) now (s ∷ rest) a =
      let before = with_pending (s ∷ rest) a in
      let ticked = tick_high_priority map now before in
      let (t_left, t_drained, t_config) = tick_drained now before in
      let r = flush_loop-Flushes ticks now ticked.pending_snapshots ticked in
      let per_tick = ap (λ c. c.max_snapshots_per_high_priority_tick) t_config in
      let n = a.config.max_snapshots_per_high_priority_tick in
      let total : suc ticks * n ≡ n + ticks * ticked.config.max_snapshots_per_high_priority_tick =
        omega arith ∙ ap (λ k. n + ticks * k) (sym per_tick) in
      record {
        left = omega (arith, t_left, r.left, total);
        drained = omega (arith, t_left, t_drained, r.drained, total);
        config_same = r.config_same ∙ t_config;
      }

  -- The result `r` of a flush of `a`.
  pub record IsFlushed (a : MissionMapAssimilator S M)
      (r : MissionMapAssimilator S M × MissionMapFlushResult) : Type 0 where
    pub completed :
        r.1.completed
        ≡ leb
            (length a.pending_snapshots)
            (a.config.max_post_landing_flush_ticks * a.config.max_snapshots_per_high_priority_tick)
    pub left :
        length r.0.pending_snapshots
        ≡ length a.pending_snapshots
          - a.config.max_post_landing_flush_ticks * a.config.max_snapshots_per_high_priority_tick
    pub drained :
        r.1.drained_snapshot_count + length r.0.pending_snapshots ≡ length a.pending_snapshots
    pub reported :
        (r.1.timed_out ≡ not r.1.completed)
        × (r.1.can_forget_raw_evidence ≡ r.1.completed)
        × (r.1.pending_snapshot_count ≡ length r.0.pending_snapshots)
    pub state : r.0.status.state ≡ (
        if r.1.completed
        then MissionMapAssimilationState.finalized
        else MissionMapAssimilationState.partial)

  nothing_left : (xs : List S) (n m : ℕ) → length xs ≡ n - m → empty xs ≡ leb n m
  nothing_left [] n m h = ground (arith, h)
  nothing_left (x ∷ xs) n m h = ground (arith, h)

  -- A flush after landing empties the queue exactly when the pending snapshots are at most the flush
  -- ticks times the snapshots of a tick; otherwise that many are applied and the others stay, and the
  -- result says so.
  pub flush_after_landing-IsFlushed :
      (now : ℤ) (a : MissionMapAssimilator S M) → IsFlushed a (flush_after_landing map now a)
  unfolding flush_after_landing
  flush_after_landing-IsFlushed now a =
      let started : MissionMapAssimilator S M = record a {
        status = record a.status { state = MissionMapAssimilationState.post_landing_finalizing };
      } in
      let r =
        flush_loop-Flushes a.config.max_post_landing_flush_ticks now a.pending_snapshots started in
      let flushed = flush_loop map a.config.max_post_landing_flush_ticks now started in
      record {
        completed = nothing_left flushed.pending_snapshots (length a.pending_snapshots) _ r.left;
        left = r.left;
        drained = omega (arith, r.left, r.drained);
        reported = (refl, refl, refl);
        state = refl;
      }
