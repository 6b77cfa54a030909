-- ===== src/Runtime/Tracker.antt =====
-- What the runtime knows of arming: include/dedalus/behavior/flight_control_state_tracker.hpp.
use dedalus.Base.{◌&&◌, ◌⊎◌, ℤ, Bool, true, false, not, String, if◌then◌else◌, ◌≡◌}
use dedalus.Mission.{FlightCommandKind, FlightControlArmState, FlightControlState, WorldSnapshot}

unfoldable pub on_command_dispatched :
    FlightCommandKind → ℤ → String → FlightControlState → FlightControlState
on_command_dispatched FlightCommandKind.arm now status s = record s {
  status = status;
  arm_state = FlightControlArmState.arm_requested;
  last_arm_request_at = now;
}
on_command_dispatched FlightCommandKind.disarm now status s = record s {
  status = status;
  arm_state = FlightControlArmState.disarm_requested;
  last_disarm_request_at = now;
}
on_command_dispatched _ now status s = record s { status = status }

unfoldable pub on_command_failed :
    FlightCommandKind → String → FlightControlState → FlightControlState
on_command_failed FlightCommandKind.arm status s = record s {
  status = status;
  arm_state = FlightControlArmState.arm_failed;
}
on_command_failed FlightCommandKind.disarm status s = record s {
  status = status;
  arm_state = FlightControlArmState.disarm_failed;
}
on_command_failed _ status s = record s { status = status }

-- The states that a disarmed ego confirms.
abbrev pub may_confirm_disarmed : FlightControlArmState → Bool
may_confirm_disarmed FlightControlArmState.disarm_requested = true
may_confirm_disarmed FlightControlArmState.armed_confirmed = true
may_confirm_disarmed FlightControlArmState.disarmed_confirmed = true
may_confirm_disarmed FlightControlArmState.unknown = true
may_confirm_disarmed _ = false

-- The tracked state after the ego's report.
unfoldable pub confirmed : {R : Type 0} → WorldSnapshot R → FlightControlState → FlightControlState
confirmed snapshot s =
    if not snapshot.ego.armed_valid
    then s
    else if snapshot.ego.armed
    then record s {
      arm_state = FlightControlArmState.armed_confirmed;
      status = "armed_confirmed_by_ego";
    }
    else if may_confirm_disarmed s.arm_state
    then record s {
      arm_state = FlightControlArmState.disarmed_confirmed;
      status = "disarmed_confirmed_by_ego";
    }
    else s

-- The snapshot and the tracked state after `apply_to_snapshot`.
unfoldable pub apply_to_snapshot :
    {R : Type 0} → WorldSnapshot R → FlightControlState → WorldSnapshot R × FlightControlState
unfolding confirmed
apply_to_snapshot snapshot s =
    let after = confirmed snapshot s in
    (
      record snapshot {
        flight_control = record s {
          updated_at = snapshot.timestamp;
          arm_state = after.arm_state;
          status = after.status;
        };
      },
      after,
    )

-- The ego reports validly that it is armed, or that it is disarmed.
abbrev pub says_armed : {R : Type 0} → WorldSnapshot R → Bool
says_armed snapshot = snapshot.ego.armed_valid && snapshot.ego.armed

abbrev pub says_disarmed : {R : Type 0} → WorldSnapshot R → Bool
says_disarmed snapshot = snapshot.ego.armed_valid && not snapshot.ego.armed

-- The states that a disarmed ego does not change: an arm request that waits, the two failures, and
-- the state that no command leads to.
abbrev pub is_unmoved : FlightControlArmState → Bool
is_unmoved FlightControlArmState.arm_requested = true
is_unmoved FlightControlArmState.arm_failed = true
is_unmoved FlightControlArmState.disarm_failed = true
is_unmoved FlightControlArmState.disarmed = true
is_unmoved _ = false

-- What the snapshot does to the tracked state, and to the state after each command.
pub record Tracks {R : Type 0} (snapshot : WorldSnapshot R) (now : ℤ) (status : String)
    (s : FlightControlState) : Type 0 where
  pub carried : (apply_to_snapshot snapshot s).0 ≡ record snapshot {
    flight_control = record (apply_to_snapshot snapshot s).1 { updated_at = snapshot.timestamp };
  }
  pub silent : (snapshot.ego.armed_valid ≡ true) ⊎ ((apply_to_snapshot snapshot s).1 ≡ s)
  pub armed :
      (says_armed snapshot ≡ false)
      ⊎ ((apply_to_snapshot snapshot s).1 ≡ record s {
        arm_state = FlightControlArmState.armed_confirmed;
        status = "armed_confirmed_by_ego";
      })
  pub disarmed :
      (says_disarmed snapshot ≡ false)
      ⊎ (((is_unmoved s.arm_state ≡ true) × ((apply_to_snapshot snapshot s).1 ≡ s))
          ⊎ ((is_unmoved s.arm_state ≡ false)
              × ((apply_to_snapshot snapshot s).1 ≡ record s {
                arm_state = FlightControlArmState.disarmed_confirmed;
                status = "disarmed_confirmed_by_ego";
              })))
  pub again :
      (apply_to_snapshot snapshot (apply_to_snapshot snapshot s).1).1
      ≡ (apply_to_snapshot snapshot s).1
  pub after_disarm :
      (says_disarmed snapshot ≡ false)
      ⊎ ((apply_to_snapshot snapshot
            (on_command_dispatched FlightCommandKind.disarm now status s)).1.arm_state
          ≡ FlightControlArmState.disarmed_confirmed)
  pub after_arm :
      (says_armed snapshot ≡ true)
      ⊎ ((apply_to_snapshot snapshot
            (on_command_dispatched FlightCommandKind.arm now status s)).1.arm_state
          ≡ FlightControlArmState.arm_requested)
  pub after_failed_arm :
      (says_armed snapshot ≡ true)
      ⊎ ((apply_to_snapshot snapshot (on_command_failed FlightCommandKind.arm status s)).1.arm_state
          ≡ FlightControlArmState.arm_failed)
  pub after_failed_disarm :
      (says_armed snapshot ≡ true)
      ⊎ ((apply_to_snapshot snapshot
            (on_command_failed FlightCommandKind.disarm status s)).1.arm_state
          ≡ FlightControlArmState.disarm_failed)
