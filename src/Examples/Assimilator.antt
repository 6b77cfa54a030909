-- ===== src/Examples/Assimilator.antt =====
-- Concrete runs of the snapshot queue: three arrivals into a queue of two.
use dedalus.Base.{pos, ℕ, List, [], ◌∷◌, ◌++◌, inl, ◌≡◌, refl, arith}
use dedalus.Assimilator.{
  MissionMapAssimilator, TraversabilityMap, drain_loop, drain_snapshots, drop_oldest, flush_loop,
  tick, tick_high_priority, enqueue_mission_obstacle_map, flush_after_landing, initial_status,
  reset,
}
use dedalus.Assimilator.Accounts.{Accounts}
use dedalus.Assimilator.Calls.{Call, run, run-Accounts}
use dedalus.Assimilator.Flush.{IsFlushed, flush_after_landing-IsFlushed}
use dedalus.Assimilator.Valid.{IsValid, run-IsValid}

-- A map that notes the snapshots.
abbrev notes : TraversabilityMap ℕ (List ℕ)
notes = record { update = λ s now clearance m. m ++ (s ∷ []); reset = λ m. [] }

abbrev queue : MissionMapAssimilator ℕ (List ℕ)
queue = record {
  config = record {
    max_pending_snapshots = 2;
    max_snapshots_per_background_tick = 1;
    max_snapshots_per_high_priority_tick = 1;
    max_post_landing_flush_ticks = 1;
  };
  traversability_map = [];
  pending_snapshots = [];
  status = initial_status;
}

queue-IsValid : IsValid queue
queue-IsValid = record {
  room = omega arith;
  bounded = omega arith;
  counted = refl;
  forgettable = inl refl;
  final = inl refl;
}

abbrev calls : List (Call ℕ)
calls =
    Call.enqueue 1
    ∷ Call.enqueue 2
    ∷ Call.enqueue 3
    ∷ Call.background (pos 5)
    ∷ Call.landed (pos 6)
    ∷ []

-- The first arrival is dropped, the others are applied.
calls_noted : (run notes calls queue).traversability_map ≡ 2 ∷ 3 ∷ []
unfolding enqueue_mission_obstacle_map drop_oldest tick drain_snapshots drain_loop
    tick_high_priority flush_after_landing flush_loop
calls_noted = refl

run-Accounts_example : Accounts notes queue (1 ∷ 2 ∷ 3 ∷ []) (run notes calls queue)
run-Accounts_example = run-Accounts notes calls queue

run-IsValid_example :
    IsValid (run notes calls queue) × IsValid (reset notes (run notes calls queue))
run-IsValid_example = run-IsValid notes calls queue queue-IsValid

-- Two pending snapshots and one flush tick: one stays.
abbrev waiting : MissionMapAssimilator ℕ (List ℕ)
waiting = run notes (Call.enqueue 1 ∷ Call.enqueue 2 ∷ []) queue

flush_after_landing-IsFlushed_example :
    IsFlushed notes waiting (flush_after_landing notes (pos 6) waiting)
flush_after_landing-IsFlushed_example = flush_after_landing-IsFlushed notes (pos 6) waiting
