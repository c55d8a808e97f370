-- ===== src/Limits/Bounds.antt =====
-- A limited position is within the bounds of its joint.
use ros2_control.Base.{◌≡◌, true, false, Option, none, some, arith, returned}
use ros2_control.Limits.Double.{Double, clamp, IsAsymmetric}
use ros2_control.Limits.Helpers
use ros2_control.Limits.Helpers.{JointLimits, JointControlInterfacesData, Limits, or_else}
use ros2_control.Limits.Range.{Enforcement}
use ros2_control.Limits.Enforcement
use ros2_control.Limits.Enforcement.{IsWithin, seeded, enforced}

-- The order of doubles: what is not below or above a number is on the other side of whatever is.
pub record IsOrder {W : Type 0} (d : Double W) : Type 0 where
  pub asymmetric : IsAsymmetric d
  pub below :
      (a b c : W) → d.is_nan c ≡ false → d.lt a b ≡ true → d.lt c b ≡ false → d.lt a c ≡ true
  pub above :
      (a b c : W) → d.is_nan c ≡ false → d.lt b a ≡ true → d.lt b c ≡ false → d.lt c a ≡ true

module _ {W : Type 0} (d : Double W) where
  -- Numbers that are in order.
  abbrev pub AreBounds : W → W → Type 0
  AreBounds lo hi = (d.is_nan lo ≡ false) × (d.is_nan hi ≡ false) × (d.lt hi lo ≡ false)

  -- The reference and the step give numbers.
  abbrev pub GivesNumbers : Option W → W → Type 0
  GivesNumbers none delta = Unit {0}
  GivesNumbers (some r) delta =
      (d.is_nan (d.sub r delta) ≡ false) × (d.is_nan (d.add r delta) ≡ false)

  -- Limits that are numbers, in order and within the bounds.
  abbrev IsInside : W → W → Limits W → Type 0
  IsInside lo hi l =
      AreBounds l.lower_limit l.upper_limit
      × (d.lt l.lower_limit lo ≡ false)
      × (d.lt hi l.upper_limit ≡ false)

  narrow-IsInside :
      (reference : Option W) (delta lo hi : W)
      → IsAsymmetric d
      → AreBounds lo hi
      → GivesNumbers reference delta
      → IsInside lo hi
          (Helpers.narrow d reference delta (record { lower_limit = lo; upper_limit = hi }))
  unfolding Helpers.narrow
  narrow-IsInside none delta lo hi asym b g = ground (arith, asym lo lo, asym hi hi)
  narrow-IsInside (some r) delta lo hi asym b g =
      ground (arith, asym lo lo, asym hi hi, asym (d.sub r delta) (d.sub r delta))

  swap-IsInside :
      (lo hi : W) (l : Limits W)
      → IsInside lo hi l
      → IsInside lo hi (Helpers.check_and_swap_limits d l)
  unfolding Helpers.check_and_swap_limits
  swap-IsInside lo hi l h = ground arith

  clamp-bounds :
      (lo hi w : W) (l : Limits W)
      → IsOrder d
      → IsInside lo hi l
      → IsWithin d w l
      → (d.lt w lo ≡ false) × (d.lt hi w ≡ false)
  clamp-bounds lo hi w l o h i =
      ground (arith, o.below w lo l.lower_limit, o.above w hi l.upper_limit)

  module _ (limits : JointLimits W) (actual : JointControlInterfacesData W) (dt : W)
      (s : Enforcement W) where
    abbrev pub reference : Option W
    reference = or_else d (seeded d limits actual dt s).prev_command.position actual.position

    abbrev pub step : W
    step = Helpers.delta_position d limits actual.velocity dt

    compute_position_limits-IsInside :
        {l : Limits W}
        → IsAsymmetric d
        → AreBounds limits.min_position limits.max_position
        → GivesNumbers reference step
        → Helpers.compute_position_limits d limits actual.velocity actual.position
            (seeded d limits actual dt s).prev_command.position
            dt
          ≡ returned l
        → IsInside limits.min_position limits.max_position l
    unfolding Helpers.compute_position_limits
    compute_position_limits-IsInside asym b g e =
        let lo = limits.min_position in
        let hi = limits.max_position in
        let bounds : Limits W = record { lower_limit = lo; upper_limit = hi } in
        ground (
          arith,
          swap-IsInside lo hi bounds (narrow-IsInside none step lo hi asym b tt),
          swap-IsInside lo hi (Helpers.narrow d reference step bounds)
              (narrow-IsInside reference step lo hi asym b g),
        )

    -- In a cycle whose length is not zero or less (otherwise the limiter returns at once), and whose
    -- position limits are computed without an exception, a position that is commanded and not NaN
    -- leaves the limiter within the bounds of its joint, if these bounds are numbers in order, `<` of
    -- doubles is an order, and the last or actual position less and plus the step of a cycle are
    -- numbers.
    pub on_enforce_position-bounds :
        {v : W} {l : Limits W}
        → IsOrder d
        → AreBounds limits.min_position limits.max_position
        → GivesNumbers reference step
        → d.le dt d.zero ≡ false
        → s.desired.position ≡ some v
        → d.is_nan v ≡ false
        → Helpers.compute_position_limits d limits actual.velocity actual.position
            (seeded d limits actual dt s).prev_command.position
            dt
          ≡ returned l
        → (w : W) × ((enforced d limits actual dt s).position ≡ some w)
          × (d.lt w limits.min_position ≡ false)
          × (d.lt limits.max_position w ≡ false)
    on_enforce_position-bounds {v = v} {l = l} o b g pos c n e =
        let w = clamp d v l.lower_limit l.upper_limit in
        let (at, within) =
          Enforcement.on_enforce_position-IsWithin d limits actual dt s o.asymmetric pos c n e in
        let (low, high) =
          clamp-bounds limits.min_position limits.max_position w l o
            (compute_position_limits-IsInside o.asymmetric b g e) within in
        (w, at, low, high)
