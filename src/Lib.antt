-- ===== src/Lib.antt =====
-- Dedalus flies a drone after objects that its perception finds. This library models the mission
-- layer: each tick, a mission controller reads a snapshot of the world and returns at most one flight
-- command, one camera command, a status and events.
--
-- Mission holds the data that the parts exchange (include/dedalus/behavior/mission_controller.hpp,
-- with parts of include/dedalus/core/types.hpp and include/dedalus/world_model/world_snapshot.hpp).
-- Flight holds the lifecycle that both controllers write out in the same words: `tick_prepare`,
-- `tick_land`, `tick_complete`, `tick_abort` and `tick_idle` are the cases of the switch in `tick`,
-- `start_mission` is its head. Flight.Contract states what a tick may do, Flight.Phases proves it of
-- each case, and Flight.Runs lifts it to sequences of ticks of any controller.
-- Trajectory models src/behavior/velocity_trajectory.cpp, Trajectory.Controller models
-- src/behavior/trajectory_mission_controller.cpp and its _tick.cpp, and Trajectory.Missions states
-- what holds of its missions.
-- Target models src/behavior/target_selector.cpp, one function per loop of `select`.
-- Behavior models the object behaviour controller, a child module per source file or method:
-- Behavior.Camera, .Sequence, .Execute (`tick_execute_mission`), .GoHome (`tick_go_home`), .Yaw (the
-- velocity commands), .Geometry (src/behavior/follow_geometry_policy.cpp) and .Tick (`tick`).
-- Behavior.Missions states what holds of its missions.
-- Runtime models src/behavior/mission_runtime.cpp and mission_runtime_dispatch.cpp over any
-- controller: Runtime.Tick is `tick_once`, Runtime.Loop is `loop` with `start`, `stop` and
-- `request_finish`, Runtime.Tracker is include/dedalus/behavior/flight_control_state_tracker.hpp. What
-- the sinks and the camera handoff answer, the clock and the latest snapshot are given from outside
-- for each tick; an exception of the handoff leaves the tick. A call from another thread falls between
-- two rounds of the loop. Exceptions other than `std::exception` from a sink are not modelled.
-- Runtime.Dispatch, .Settles and .Overruns hold the theorems.
-- Planning models the Level 2 map, src/avoidance/mission_local_planning_map.cpp with its files
-- _spatial.cpp, _sqlite.cpp and _query.cpp. Planning itself holds the cells with their index and
-- their spatial buckets; Planning.Grid the grid, Planning.Update `update_from_traversability` with
-- its evictions, Planning.Window the snapshots, `reset` and the sliding window, Planning.Store the
-- pending writes and the database, Planning.Query the queries by box. The other children hold the
-- theorems. A hash map is a function with the order of its walk given from outside, a set is its
-- test, a table of the database is the rows that its queries and statements mean. `floor` and `exp`
-- are the parameter `GridMath`. Counters of 64 bits are natural numbers: at one write per nanosecond
-- they last for centuries.
-- Assimilator models src/avoidance/mission_map_assimilator.cpp, the queue of obstacle snapshots with
-- its budgets, over any Level 1 map (`TraversabilityMap`).
-- Spec models src/behavior/behavior_spec.cpp and behavior_spec_strings.cpp from the tree of nodes on,
-- which the two text readers build: Spec.Names the spellings, Spec.Nodes the tree, Spec.Fields the
-- groups of fields, Spec.Decode the recursion over steps and the mission. A `throw` is an error value;
-- `std::stod` and `std::tolower` are the parameter `SpecText`.
-- Examples holds the concrete runs.
--
-- State is passed explicitly: a method takes the members as a record and returns them. A method that
-- throws returns no output, with the members as they were when it threw. The type of `double` is a
-- parameter with the interface `Double`, since its operations are the compiler's and the C++
-- library's; where a theorem needs an order law it takes `IsIeee`, whose laws hold of IEEE numbers,
-- NaN included, and which `Fixed-IsIeee` shows can be met. Times are integers of nanoseconds. The
-- follow and orbit geometry (src/behavior/follow_geometry_policy_follow.cpp and _circle.cpp) and the
-- texts of events and statuses are the parameter `GeometryPolicy`.
--
-- The two loops that bring an orbit angle into range run on fuel 2 (`wrap_fuel`): both angles come
-- from `atan2`, so their difference lies within one turn of the range and each loop runs once at
-- most. The laws of rounding that this needs are `IsRounded`. All other loops are structural.
-- `std::clamp` with its bounds the wrong way round is undefined; its value there is the parameter
-- `clamp_undefined`, of which nothing is known.
--
-- Not modelled: the texts of event payloads and errors, the YAML and JSON readers and the other
-- configuration files, `ray_cast`, the text file, `remove_mission` and the ESDF table of the planning
-- map, vehicle and gimbal protocols, perception, sensing, depth, the rest of the avoidance maps,
-- visualization, simulation and the applications.
pub mod Base
pub mod Mission
pub mod Flight
pub mod Trajectory
pub mod Target
pub mod Behavior
pub mod Examples
pub mod Runtime
pub mod Planning
pub mod Assimilator
pub mod Spec
