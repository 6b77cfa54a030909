-- ===== src/Assimilator.antt =====
-- The bounded queue of snapshots before the Level 1 map: src/avoidance/mission_map_assimilator.cpp.
-- `S` is a snapshot of the obstacle map and `M` the Level 1 map. Its counters of 64 bits count single
-- snapshots and stay below 2^64, so they are natural numbers.
pub mod Accounts
pub mod Calls
pub mod Drains
pub mod Flush
pub mod Valid
use dedalus.Base.{
  ℤ, pos, pos_part, ℕ, zero, suc, ◌+◌, ◌-◌, min, Bool, true, false, not, leb, ◌==◌, List, [], ◌∷◌,
  ◌++◌, length, if◌then◌else◌,
}

pub data MissionMapAssimilationState : Type 0 where
  idle background_assimilating post_landing_finalizing : MissionMapAssimilationState
  finalized partial : MissionMapAssimilationState

pub record MissionMapAssimilatorConfig : Type 0 where
  pub max_pending_snapshots : ℕ
  pub max_snapshots_per_background_tick : ℕ
  pub max_snapshots_per_high_priority_tick : ℕ
  pub max_post_landing_flush_ticks : ℕ

pub record MissionMapAssimilationStatus : Type 0 where
  pub state : MissionMapAssimilationState
  pub pending_snapshot_count : ℕ
  pub drained_snapshot_count : ℕ
  pub dropped_snapshot_count : ℕ
  pub compacted_generation : ℕ
  pub last_update_timestamp_ns : ℕ
  pub can_forget_raw_evidence : Bool

pub record MissionMapFlushResult : Type 0 where
  pub completed : Bool
  pub timed_out : Bool
  pub can_forget_raw_evidence : Bool
  pub drained_snapshot_count : ℕ
  pub pending_snapshot_count : ℕ
  pub compacted_generation : ℕ

-- `MissionLocalTraversabilityMap::update_from_mission_obstacle_map`, with the time and
-- `include_clearance`, and its `reset`.
pub record TraversabilityMap (S M : Type 0) : Type 0 where
  pub update : S → ℤ → Bool → M → M
  pub reset : M → M

pub record MissionMapAssimilator (S M : Type 0) : Type 0 where
  pub config : MissionMapAssimilatorConfig
  pub traversability_map : M
  pub pending_snapshots : List S
  pub status : MissionMapAssimilationStatus

abbrev pub timestamp_ns : ℤ → ℕ
timestamp_ns time = pos_part time

abbrev pub at_least : ℕ → ℕ → ℕ
at_least fallback n = if n == 0 then fallback else n

-- The constructor's checks.
unfoldable pub checked : MissionMapAssimilatorConfig → MissionMapAssimilatorConfig
checked config =
    let background = at_least 1 config.max_snapshots_per_background_tick in
    record {
      max_pending_snapshots = at_least 1 config.max_pending_snapshots;
      max_snapshots_per_background_tick = background;
      max_snapshots_per_high_priority_tick =
          at_least background config.max_snapshots_per_high_priority_tick;
      max_post_landing_flush_ticks = at_least 1 config.max_post_landing_flush_ticks;
    }

abbrev pub initial_status : MissionMapAssimilationStatus
initial_status = record {
  state = MissionMapAssimilationState.idle;
  pending_snapshot_count = 0;
  drained_snapshot_count = 0;
  dropped_snapshot_count = 0;
  compacted_generation = 0;
  last_update_timestamp_ns = 0;
  can_forget_raw_evidence = false;
}

abbrev pub empty : {A : Type 0} → List A → Bool
empty [] = true
empty (x ∷ xs) = false

abbrev pub is_finalizing : MissionMapAssimilationState → Bool
is_finalizing MissionMapAssimilationState.post_landing_finalizing = true
is_finalizing _ = false

abbrev pub reopened : MissionMapAssimilationState → MissionMapAssimilationState
reopened MissionMapAssimilationState.finalized = MissionMapAssimilationState.idle
reopened state = state

-- The loop that drops the oldest snapshots; the constructor makes `capacity` positive.
unfoldable pub drop_oldest :
    {S : Type 0} → ℕ → List S → MissionMapAssimilationStatus → List S × MissionMapAssimilationStatus
drop_oldest capacity [] status = ([], status)
drop_oldest capacity (s ∷ pending) status =
    if leb capacity (length (s ∷ pending))
    then drop_oldest capacity pending
        (record status { dropped_snapshot_count = status.dropped_snapshot_count + 1 })
    else (s ∷ pending, status)

module _ {S M : Type 0} where
  unfoldable pub enqueue_mission_obstacle_map :
      S → MissionMapAssimilator S M → MissionMapAssimilator S M
  enqueue_mission_obstacle_map snapshot a =
      let (kept, status) =
        drop_oldest a.config.max_pending_snapshots a.pending_snapshots a.status in
      let pending = kept ++ (snapshot ∷ []) in
      record a {
        pending_snapshots = pending;
        status = record status {
          pending_snapshot_count = length pending;
          can_forget_raw_evidence = false;
          state = reopened status.state;
        };
      }

  module _ (map : TraversabilityMap S M) where
    -- The loop of `drain_snapshots`.
    unfoldable pub drain_loop : ℕ → ℤ → Bool → MissionMapAssimilator S M → MissionMapAssimilator S M
    drain_loop zero now include_clearance a = a
    drain_loop (suc limit) now include_clearance a = elim a.pending_snapshots [
      | [] ↦ a
      | snapshot ∷ pending ↦ drain_loop limit now include_clearance (record a {
        pending_snapshots = pending;
        traversability_map = map.update snapshot now include_clearance a.traversability_map;
        status = record a.status {
          drained_snapshot_count = a.status.drained_snapshot_count + 1;
          compacted_generation = a.status.compacted_generation + 1;
        };
      })
    ]

    abbrev pub drained_state :
        Bool
        → MissionMapAssimilationState
        → MissionMapAssimilationState
        → MissionMapAssimilationState
    drained_state none_left active_state state =
        if none_left
        then (if is_finalizing active_state
            then MissionMapAssimilationState.finalized
            else MissionMapAssimilationState.idle)
        else state

    abbrev pub finish_drain :
        ℤ → MissionMapAssimilationState → MissionMapAssimilator S M → MissionMapAssimilator S M
    finish_drain now active_state a = record a {
      status = record a.status {
        pending_snapshot_count = length a.pending_snapshots;
        last_update_timestamp_ns = timestamp_ns now;
        can_forget_raw_evidence = empty a.pending_snapshots;
        state = drained_state (empty a.pending_snapshots) active_state a.status.state;
      };
    }

    unfoldable pub drain_snapshots :
        ℤ
        → ℕ
        → MissionMapAssimilationState
        → Bool
        → MissionMapAssimilator S M
        → MissionMapAssimilator S M
    drain_snapshots now max_snapshots active_state include_clearance a =
        finish_drain now active_state (
          drain_loop (min max_snapshots (length a.pending_snapshots)) now include_clearance
            (record a {
              status = record a.status {
                state =
                    if empty a.pending_snapshots
                    then MissionMapAssimilationState.idle
                    else active_state;
              };
            }))

    unfoldable pub tick : ℤ → MissionMapAssimilator S M → MissionMapAssimilator S M
    tick now a =
        drain_snapshots now a.config.max_snapshots_per_background_tick
          MissionMapAssimilationState.background_assimilating false a

    unfoldable pub tick_high_priority : ℤ → MissionMapAssimilator S M → MissionMapAssimilator S M
    tick_high_priority now a =
        drain_snapshots now a.config.max_snapshots_per_high_priority_tick
          MissionMapAssimilationState.post_landing_finalizing true a

    -- The loop of `flush_after_landing`, with the ticks that are left.
    unfoldable pub flush_loop : ℕ → ℤ → MissionMapAssimilator S M → MissionMapAssimilator S M
    flush_loop zero now a = a
    flush_loop (suc ticks) now a = elim a.pending_snapshots [
      | [] ↦ a
      | snapshot ∷ pending ↦ flush_loop ticks now (tick_high_priority now a)
    ]

    abbrev pub end_flush :
        ℕ → MissionMapAssimilator S M → MissionMapAssimilator S M × MissionMapFlushResult
    end_flush drained_before a =
        let completed = empty a.pending_snapshots in
        (
          record a {
            status = record a.status {
              pending_snapshot_count = length a.pending_snapshots;
              can_forget_raw_evidence = completed;
              state =
                  if completed
                  then MissionMapAssimilationState.finalized
                  else MissionMapAssimilationState.partial;
            };
          },
          record {
            completed = completed;
            timed_out = not completed;
            can_forget_raw_evidence = completed;
            drained_snapshot_count = a.status.drained_snapshot_count - drained_before;
            pending_snapshot_count = length a.pending_snapshots;
            compacted_generation = a.status.compacted_generation;
          },
        )

    unfoldable pub flush_after_landing :
        ℤ → MissionMapAssimilator S M → MissionMapAssimilator S M × MissionMapFlushResult
    flush_after_landing now a = end_flush a.status.drained_snapshot_count (
        flush_loop a.config.max_post_landing_flush_ticks now (record a {
          status = record a.status { state = MissionMapAssimilationState.post_landing_finalizing };
        }))

    unfoldable pub reset : MissionMapAssimilator S M → MissionMapAssimilator S M
    reset a = record a {
      pending_snapshots = [];
      traversability_map = map.reset a.traversability_map;
      status = initial_status;
    }
