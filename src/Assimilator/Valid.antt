-- ===== src/Assimilator/Valid.antt =====
-- The invariant of the queue and of the status that is reported.
use dedalus.Base.{
  ℤ, ℕ, ◌+◌, ◌≤◌, ◌<◌, min, Bool, true, false, leb, List, [], ◌∷◌, length, length-append,
  if◌then◌else◌, ◌≡◌, refl, ap, ◌∙◌, ◌⊎◌, inl, inr, arith,
}
use dedalus.Assimilator.{
  MissionMapAssimilationState, MissionMapAssimilationStatus, MissionMapAssimilator,
  TraversabilityMap, drain_loop, drain_snapshots, drop_oldest, drained_state, empty,
  enqueue_mission_obstacle_map, flush_after_landing, reopened, reset, tick, tick_high_priority,
}
use dedalus.Assimilator.Calls.{Call, call, run, run-Accounts}
use dedalus.Assimilator.Drains.{begun, drain_loop-Drains}
use dedalus.Assimilator.Flush.{flush_after_landing-IsFlushed}

abbrev is_finalized : MissionMapAssimilationState → Bool
is_finalized MissionMapAssimilationState.finalized = true
is_finalized _ = false

module _ {S M : Type 0} where
  pub record IsValid (a : MissionMapAssimilator S M) : Type 0 where
    pub room : 0 < a.config.max_pending_snapshots
    pub bounded : length a.pending_snapshots ≤ a.config.max_pending_snapshots
    pub counted : a.status.pending_snapshot_count ≡ length a.pending_snapshots
    -- Raw evidence may be forgotten, and the map is final, only when nothing is pending.
    pub forgettable : (a.status.can_forget_raw_evidence ≡ false) ⊎ (length a.pending_snapshots ≡ 0)
    pub final : (is_finalized a.status.state ≡ false) ⊎ (length a.pending_snapshots ≡ 0)

drop_oldest-bounded :
    {S : Type 0} (capacity : ℕ) (pending : List S) (status : MissionMapAssimilationStatus)
    → 0 < capacity
    → length (drop_oldest capacity pending status).0 < capacity
unfolding drop_oldest
drop_oldest-bounded capacity [] status h = h
drop_oldest-bounded capacity (s ∷ pending) status h =
    decide (leb capacity (length (s ∷ pending))) refl
      (drop_oldest-bounded capacity pending counted h)
  where
    counted : MissionMapAssimilationStatus
    counted = record status { dropped_snapshot_count = status.dropped_snapshot_count + 1 }

    decide :
        (full : Bool)
        → leb capacity (length (s ∷ pending)) ≡ full
        → length (drop_oldest capacity pending counted).0 < capacity
        → length (if full then drop_oldest capacity pending counted else (s ∷ pending, status)).0
          < capacity
    decide true e rest = rest
    decide false e rest = ground (arith, e)

reopened_lem : (state : MissionMapAssimilationState) → is_finalized (reopened state) ≡ false
reopened_lem state = ground arith

empty-cases : {A : Type 0} (xs : List A) → (empty xs ≡ false) ⊎ (length xs ≡ 0)
empty-cases [] = inr refl
empty-cases (x ∷ xs) = inl refl

module _ {S M : Type 0} (map : TraversabilityMap S M) where
  enqueue-IsValid :
      (s : S) (a : MissionMapAssimilator S M)
      → IsValid a
      → IsValid (enqueue_mission_obstacle_map s a)
  unfolding enqueue_mission_obstacle_map
  enqueue-IsValid s a v = record {
    room = v.room;
    bounded =
        let kept = drop_oldest a.config.max_pending_snapshots a.pending_snapshots a.status in
        omega (
          arith,
          length-append kept.0 (s ∷ []),
          drop_oldest-bounded a.config.max_pending_snapshots a.pending_snapshots a.status v.room,
        );
    counted = refl;
    forgettable = inl refl;
    final = inl (
        reopened_lem
          (drop_oldest a.config.max_pending_snapshots a.pending_snapshots a.status).1.state);
  }

  drained_final :
      (active state : MissionMapAssimilationState) (pending : List S)
      → is_finalized state ≡ false
      → (is_finalized (drained_state map (empty pending) active state) ≡ false)
        ⊎ (length pending ≡ 0)
  drained_final active state [] e = inr refl
  drained_final active state (s ∷ pending) e = inl e

  begun_state :
      (active : MissionMapAssimilationState) (a : MissionMapAssimilator S M)
      → is_finalized active ≡ false
      → is_finalized (begun map active a).status.state ≡ false
  begun_state active a e = decide (empty a.pending_snapshots)
    where
      decide :
          (b : Bool) → is_finalized (if b then MissionMapAssimilationState.idle else active) ≡ false
      decide true = refl
      decide false = e

  drain-IsValid :
      (now : ℤ) (max_snapshots : ℕ) (active : MissionMapAssimilationState) (clearance : Bool)
      (a : MissionMapAssimilator S M)
      → is_finalized active ≡ false
      → IsValid a
      → IsValid (drain_snapshots map now max_snapshots active clearance a)
  unfolding drain_snapshots
  drain-IsValid now max_snapshots active clearance a e v =
      let r =
        drain_loop-Drains map (min max_snapshots (length a.pending_snapshots)) now clearance
          a.pending_snapshots (begun map active a) in
      let limits = ap (λ c. c.max_pending_snapshots) r.config_same in
      let drained =
        drain_loop map (min max_snapshots (length a.pending_snapshots)) now clearance
          (begun map active a) in
      record {
        room = omega (arith, v.room, limits);
        bounded = omega (arith, v.bounded, r.left, limits);
        counted = refl;
        forgettable = empty-cases drained.pending_snapshots;
        final =
            drained_final active drained.status.state drained.pending_snapshots
              (ap is_finalized r.state_same ∙ begun_state active a e);
      }

  flush-IsValid :
      (now : ℤ) (a : MissionMapAssimilator S M)
      → IsValid a
      → IsValid (flush_after_landing map now a).0
  unfolding flush_after_landing
  flush-IsValid now a v =
      let r = flush_after_landing-IsFlushed map now a in
      let limits =
        ap (λ c. c.max_pending_snapshots) (run-Accounts map (Call.landed now ∷ []) a).config_same in
      let after = (flush_after_landing map now a).0 in
      record {
        room = omega (arith, v.room, limits);
        bounded = omega (arith, v.bounded, r.left, limits);
        counted = refl;
        forgettable = empty-cases after.pending_snapshots;
        final = flushed_final after.pending_snapshots;
      }
    where
      flushed_final :
          (pending : List S)
          → (is_finalized (
                if empty pending
                then MissionMapAssimilationState.finalized
                else MissionMapAssimilationState.partial)
              ≡ false)
            ⊎ (length pending ≡ 0)
      flushed_final [] = inr refl
      flushed_final (s ∷ pending) = inl refl

  call-IsValid : (c : Call S) (a : MissionMapAssimilator S M) → IsValid a → IsValid (call map c a)
  unfolding tick tick_high_priority
  call-IsValid (Call.enqueue s) a v = enqueue-IsValid s a v
  call-IsValid (Call.background now) a v =
      drain-IsValid now a.config.max_snapshots_per_background_tick
        MissionMapAssimilationState.background_assimilating false a refl v
  call-IsValid (Call.high_priority now) a v =
      drain-IsValid now a.config.max_snapshots_per_high_priority_tick
        MissionMapAssimilationState.post_landing_finalizing true a refl v
  call-IsValid (Call.landed now) a v = flush-IsValid now a v

  all_calls-IsValid :
      (calls : List (Call S)) (a : MissionMapAssimilator S M)
      → IsValid a
      → IsValid (run map calls a)
  all_calls-IsValid [] a v = v
  all_calls-IsValid (c ∷ calls) a v = all_calls-IsValid calls (call map c a) (call-IsValid c a v)

  reset-IsValid : (a : MissionMapAssimilator S M) → IsValid a → IsValid (reset map a)
  unfolding reset
  reset-IsValid a v = record {
    room = v.room;
    bounded = omega arith;
    counted = refl;
    forgettable = inl refl;
    final = inl refl;
  }

  -- Over any calls, and by a reset after them, the queue stays within its positive limit and is
  -- counted by the status, and the status says that raw evidence may be forgotten, or that the map is
  -- final, only when nothing is pending.
  pub run-IsValid :
      (calls : List (Call S)) (a : MissionMapAssimilator S M)
      → IsValid a
      → IsValid (run map calls a) × IsValid (reset map (run map calls a))
  run-IsValid calls a v =
      let ran = all_calls-IsValid calls a v in (ran, reset-IsValid (run map calls a) ran)
