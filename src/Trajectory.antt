-- ===== src/Trajectory.antt =====
-- Velocity trajectories: src/behavior/velocity_trajectory.cpp. `R` is the type of `double`.
-- A string that is compared with literals is an enumeration of them with a case for the rest.
pub mod Controller
pub mod Missions
use dedalus.Base.{
  pos, ℕ, ℤ, Bool, ◌&&◌, Option, none, some, List, [], ◌∷◌, String, Double, nought, max_double,
  if◌then◌else◌, get_elem?,
}
use dedalus.Mission.{Vec3}
use dedalus.Flight.{zero_vec}

pub data SegmentType : Type 0 where
  hold velocity_keyframes circle_velocity figure8_velocity : SegmentType
  other : String → SegmentType

pub data SegmentDirection : Type 0 where
  cw : SegmentDirection
  other : String → SegmentDirection

pub record TrajectoryKeyframe (R : Type 0) : Type 0 where
  pub t_s : R
  pub vx_mps : R
  pub vy_mps : R
  pub vz_mps : R

pub record TrajectorySegment (R : Type 0) : Type 0 where
  pub segment_type : SegmentType
  pub label : String
  pub duration_s : R
  pub vx_mps : R
  pub vy_mps : R
  pub vz_mps : R
  pub speed_mps : R
  pub radius_m : R
  pub scale_m : R
  pub yaw_offset_rad : R
  pub direction : SegmentDirection
  pub keyframes : List (TrajectoryKeyframe R)

module _ {R : Type 0} ⦃d : Double R⦄ where
  open d use {lt, le, add, sub, mul, div, of_int, decimal, sqrt, sin, cos, atan2, hypot}

  abbrev pub tiny : R
  tiny = decimal (pos 1) 6

  lerp : R → R → R → R
  lerp a b u = add a (mul (sub b a) u)

  abbrev frame_velocity : TrajectoryKeyframe R → Vec3 R
  frame_velocity k = record { x = k.vx_mps; y = k.vy_mps; z = k.vz_mps }

  abbrev back : TrajectoryKeyframe R → List (TrajectoryKeyframe R) → TrajectoryKeyframe R
  back k [] = k
  back k (l ∷ ks) = back l ks

  -- The loop of `interpolate_keyframes` over neighbours; `last` is `keyframes.back()`.
  interpolate_pairs :
      TrajectoryKeyframe R → TrajectoryKeyframe R → List (TrajectoryKeyframe R) → R → Vec3 R
  unfolding lerp
  interpolate_pairs last a [] t = frame_velocity last
  interpolate_pairs last a (b ∷ ks) t =
      let span = max_double (sub b.t_s a.t_s) tiny in
      let u = div (sub t a.t_s) span in
      if le a.t_s t && le t b.t_s
      then record {
        x = lerp a.vx_mps b.vx_mps u;
        y = lerp a.vy_mps b.vy_mps u;
        z = lerp a.vz_mps b.vz_mps u;
      }
      else interpolate_pairs last b ks t

  interpolate_keyframes : List (TrajectoryKeyframe R) → R → Vec3 R
  unfolding interpolate_pairs
  interpolate_keyframes [] t = zero_vec
  interpolate_keyframes (k ∷ ks) t =
      let last = back k ks in
      if le t k.t_s
      then frame_velocity k
      else if le last.t_s t
      then frame_velocity last
      else interpolate_pairs last k ks t

  -- `default_hold(1.0)`.
  pub default_hold : List (TrajectorySegment R)
  default_hold = hold_segment ∷ []
    where
      hold_segment : TrajectorySegment R
      hold_segment = record {
        segment_type = SegmentType.hold;
        label = "default_hold";
        duration_s = of_int (pos 1);
        vx_mps = nought;
        vy_mps = nought;
        vz_mps = nought;
        speed_mps = nought;
        radius_m = of_int (pos 1);
        scale_m = of_int (pos 1);
        yaw_offset_rad = nought;
        direction = SegmentDirection.other "ccw";
        keyframes = [];
      }

  direction_sign : SegmentDirection → R
  direction_sign SegmentDirection.cw = of_int (ℤ.negsuc 0)
  direction_sign (SegmentDirection.other w) = of_int (pos 1)

  -- The body of `velocity_at` on one segment; `none` is the exception for an unknown type.
  segment_velocity : TrajectorySegment R → SegmentType → R → Option (Vec3 R)
  unfolding interpolate_keyframes direction_sign
  segment_velocity s SegmentType.hold t = some (record { x = s.vx_mps; y = s.vy_mps; z = s.vz_mps })
  segment_velocity s SegmentType.velocity_keyframes t = some (interpolate_keyframes s.keyframes t)
  segment_velocity s SegmentType.circle_velocity t =
      let speed = if lt nought s.speed_mps then s.speed_mps else of_int (pos 2) in
      let radius = max_double s.radius_m tiny in
      let sign = direction_sign s.direction in
      let theta = mul (div speed radius) t in
      some
        (record { x = mul speed (cos theta); y = mul (mul sign speed) (sin theta); z = s.vz_mps })
  segment_velocity s SegmentType.figure8_velocity t =
      let duration = max_double s.duration_s tiny in
      let speed = if lt nought s.speed_mps then s.speed_mps else of_int (pos 2) in
      let scale = max_double s.scale_m tiny in
      let pi = decimal (pos 314159265358979323846) 20 in
      let theta = div (mul (mul (of_int (pos 2)) pi) t) duration in
      let dx = mul scale (cos theta) in
      let dy = mul scale (cos (mul (of_int (pos 2)) theta)) in
      let norm = max_double (hypot dx dy) tiny in
      some (record { x = div (mul speed dx) norm; y = div (mul speed dy) norm; z = s.vz_mps })
  segment_velocity s (SegmentType.other w) t = none

  -- `none` is also `std::out_of_range`.
  pub velocity_at : List (TrajectorySegment R) → ℕ → R → Option (Vec3 R)
  unfolding segment_velocity
  velocity_at segments i t = elim (get_elem? segments i) [
    | none ↦ none
    | some s ↦ segment_velocity s s.segment_type t
  ]
