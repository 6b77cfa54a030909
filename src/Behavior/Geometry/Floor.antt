-- ===== src/Behavior/Geometry/Floor.antt =====
-- What the height floor makes of a velocity.
use dedalus.Base.{◌||◌, ◌⊎◌, pos, true, false, ◌≡◌, Double, IsIeee, nought, arith}
use dedalus.Mission.{Vec3}
use dedalus.Behavior.Geometry.{clamp, enforce_min_height_floor}

module _ {R : Type 0} ⦃d : Double R⦄ (laws : IsIeee R) where
  -- Half of the missing height per second, within 0.35 m/s and the vertical speed.
  abbrev climb : R → R → R → R
  climb height floor speed =
      clamp (d.mul (d.sub floor height) (d.decimal (pos 5) 1)) (d.decimal (pos 35) 2) speed

  clamp-bounds :
      (v lo hi : R)
      → d.lt hi lo ≡ false
      → (d.lt (clamp v lo hi) lo ≡ false) × (d.lt hi (clamp v lo hi) ≡ false)
  clamp-bounds v lo hi h = ground (arith, h, laws.lt_irrefl lo, laws.lt_irrefl hi)

  -- `w` is `v` after the floor.
  pub record IsFloored (v : Vec3 R) (height floor speed : R) (w : Vec3 R) : Type 0 where
    pub horizontal : (w.x ≡ v.x) × (w.y ≡ v.y)
    pub below :
        (d.lt height floor ≡ false)
        ⊎ ((d.lt (d.neg (climb height floor speed)) w.z ≡ false)
            × (d.lt (climb height floor speed) (d.decimal (pos 35) 2) ≡ false)
            × (d.lt speed (climb height floor speed) ≡ false)
            × ((w.z ≡ v.z) ⊎ (w.z ≡ d.neg (climb height floor speed))))
    pub at_floor :
        (d.le height floor ≡ false) ⊎ ((d.lt height floor ≡ true) ⊎ (d.lt nought w.z ≡ false))
    pub above : (d.le height floor || d.lt height floor ≡ true) ⊎ (w ≡ v)

  -- With a floor above zero and a vertical speed that is above zero and not below 0.35 m/s, for which
  -- the clamp is defined, the floor leaves the horizontal velocity; below the floor the drone climbs
  -- at least at the clamped half of the missing height per second (a negative `z` climbs), which is
  -- neither below 0.35 m/s nor above the vertical speed, and its vertical velocity is that or the one
  -- asked for; at the floor it does not descend; above the floor nothing changes.
  pub enforce_min_height_floor_lem :
      (v : Vec3 R) (height floor speed : R)
      → d.le floor nought ≡ false
      → d.le speed nought ≡ false
      → d.lt speed (d.decimal (pos 35) 2) ≡ false
      → IsFloored v height floor speed (enforce_min_height_floor v height floor speed)
  unfolding enforce_min_height_floor
  enforce_min_height_floor_lem v height floor speed hf hs hc = ground (
    arith,
    clamp-bounds (d.mul (d.sub floor height) (d.decimal (pos 5) 1)) (d.decimal (pos 35) 2) speed hc,
    laws.lt_irrefl nought,
    laws.lt_irrefl (d.neg (climb height floor speed)),
  )
