-- ===== src/Trajectory/Controller/Advance.antt =====
-- What the loop of `advance_segment_if_needed` passes, and where it stops.
use dedalus.Base.{
  ℕ, zero, suc, ◌+◌, true, false, Option, none, some, List, [], ◌∷◌, get_elem?, drop, take, Bool,
  ◌≡◌, ◌∙◌, refl, ap, subst, arith, Double, if◌then◌else◌,
}
use dedalus.Trajectory.{TrajectorySegment}
use dedalus.Trajectory.Controller.{
  TrajectoryMissionConfig, TrajectoryMissionController, advance_segment_if_needed, advance_segments,
}

from_zero : (k : ℕ) → k ≡ 0 + k
from_zero k = omega arith

one_later : (i k : ℕ) → suc (i + k) ≡ suc i + k
one_later i k = omega arith

get_elem?-drop :
    {A : Type 0} (xs : List A) (i k : ℕ) → get_elem? (drop i xs) k ≡ get_elem? xs (i + k)
get_elem?-drop xs zero k = ap (get_elem? xs) (from_zero k)
get_elem?-drop [] (suc i) k = refl
get_elem?-drop (x ∷ xs) (suc i) k = get_elem?-drop xs i k ∙ ap (get_elem? (x ∷ xs)) (one_later i k)

module _ {R : Type 0} ⦃d : Double R⦄ where
  -- The time that is left of `e` after all of these segments.
  abbrev pub time_left : List (TrajectorySegment R) → R → R
  time_left [] e = e
  time_left (s ∷ segments) e = time_left segments (d.sub e s.duration_s)

  -- Each of these segments is finished when its turn comes.
  abbrev pub AllFinished : List (TrajectorySegment R) → R → Type 0
  AllFinished [] e = Unit
  AllFinished (s ∷ segments) e =
      (d.le s.duration_s e ≡ true) × AllFinished segments (d.sub e s.duration_s)

  -- There is no segment, or it has time left.
  abbrev pub Unfinished : Option (TrajectorySegment R) → R → Type 0
  Unfinished none e = Unit
  Unfinished (some s) e = d.le s.duration_s e ≡ false

  -- From `i` on over `segments`, the loop passes `passed` of them and stops at `p`.
  record Passes (segments : List (TrajectorySegment R)) (i : ℕ) (e : R) (p : ℕ × R) : Type 0 where
    passed : ℕ
    index : p.0 ≡ i + passed
    time : p.1 ≡ time_left (take passed segments) e
    finished : AllFinished (take passed segments) e
    stops : Unfinished (get_elem? segments passed) (time_left (take passed segments) e)

  one_more :
      (s : TrajectorySegment R) (rest : List (TrajectorySegment R)) (i : ℕ) (e : R) (p : ℕ × R)
      → Passes rest (i + 1) (d.sub e s.duration_s) p
      → (b : Bool) → d.le s.duration_s e ≡ b
      → Passes (s ∷ rest) i e (if b then p else (i, e))
  one_more s rest i e p next true h = record {
    passed = suc next.passed;
    index = omega (arith, next.index);
    time = next.time;
    finished = (h, next.finished);
    stops = next.stops;
  }
  one_more s rest i e p next false h = record {
    passed = 0;
    index = omega arith;
    time = refl;
    finished = tt;
    stops = h;
  }

  advance_segments-Passes :
      (segments : List (TrajectorySegment R)) (i : ℕ) (e : R)
      → Passes segments i e (advance_segments segments i e)
  unfolding advance_segments
  advance_segments-Passes [] i e = record {
    passed = 0;
    index = omega arith;
    time = refl;
    finished = tt;
    stops = tt;
  }
  advance_segments-Passes (s ∷ rest) i e =
      one_more s rest i e (advance_segments rest (i + 1) (d.sub e s.duration_s))
        (advance_segments-Passes rest (i + 1) (d.sub e s.duration_s)) (d.le s.duration_s e) refl

  -- `c` has become `t` over the segments of the trajectory from its index on.
  pub record Advances (segments : List (TrajectorySegment R)) (c t : TrajectoryMissionController R)
      : Type 0 where
    pub passed : ℕ
    pub index : t.segment_index ≡ c.segment_index + passed
    pub time :
        t.segment_elapsed_s
        ≡ time_left (take passed (drop c.segment_index segments)) c.segment_elapsed_s
    pub finished : AllFinished (take passed (drop c.segment_index segments)) c.segment_elapsed_s
    pub stops : Unfinished (get_elem? segments t.segment_index) t.segment_elapsed_s
    pub flight : t.flight ≡ c.flight

  -- The loop passes a number of segments from the index on: the index grows by that number, the
  -- elapsed time loses their durations one after another, each of them was finished by the time that
  -- was then left, and it stops at a segment that the remaining time does not finish, or past the last
  -- one. The members of the lifecycle are kept.
  pub advance_segment_if_needed_lem :
      (cfg : TrajectoryMissionConfig R) (c : TrajectoryMissionController R)
      → Advances cfg.trajectory c (advance_segment_if_needed cfg c)
  unfolding advance_segment_if_needed
  advance_segment_if_needed_lem cfg c =
      let p =
        advance_segments-Passes (drop c.segment_index cfg.trajectory) c.segment_index
          c.segment_elapsed_s in
      record {
        passed = p.passed;
        index = p.index;
        time = p.time;
        finished = p.finished;
        stops = rw p.index (
            rw p.time (
              subst
                (λ o. Unfinished o (
                  time_left (take p.passed (drop c.segment_index cfg.trajectory))
                    c.segment_elapsed_s))
                (get_elem?-drop cfg.trajectory c.segment_index p.passed) p.stops));
        flight = refl;
      }
