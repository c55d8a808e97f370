-- ===== src/Limits/Enforcement.antt =====
-- What a limiter makes of a command.
use ros2_control.Base.{◌≡◌, Bool, true, false, not, Option, some, if◌then◌else◌, arith, returned}
use ros2_control.Limits.Double.{Double, clamp, is_limited, IsAsymmetric}
use ros2_control.Limits.Helpers
use ros2_control.Limits.Helpers.{JointLimits, JointControlInterfacesData, Limits}
use ros2_control.Limits.Range
use ros2_control.Limits.Range.{Enforcement, EnforcementAction}

module _ {W : Type 0} (d : Double W) where
  clamp-unlimited : (v lo hi : W) → is_limited d v lo hi ≡ false → clamp d v lo hi ≡ v
  unfolding clamp is_limited
  clamp-unlimited v lo hi e = ground arith

  -- Not below the lower limit and not above the upper one.
  abbrev pub IsWithin : W → Limits W → Type 0
  IsWithin v l = (d.lt v l.lower_limit ≡ false) × (d.lt l.upper_limit v ≡ false)

  abbrev pub IsOrdered : Limits W → Type 0
  IsOrdered l = d.lt l.upper_limit l.lower_limit ≡ false

  clamp-IsWithin :
      (v : W) (l : Limits W)
      → IsAsymmetric d
      → IsOrdered l
      → IsWithin (clamp d v l.lower_limit l.upper_limit) l
  unfolding clamp
  clamp-IsWithin v l asym o = ground (
    arith,
    asym l.lower_limit l.lower_limit,
    asym l.upper_limit l.upper_limit,
    asym v l.lower_limit,
    asym l.upper_limit v,
  )

  check_and_swap_limits-IsOrdered :
      (l : Limits W) → IsAsymmetric d → IsOrdered (Helpers.check_and_swap_limits d l)
  unfolding Helpers.check_and_swap_limits
  check_and_swap_limits-IsOrdered l asym = ground (arith, asym l.upper_limit l.lower_limit)

  module _ (limits : JointLimits W) (actual : JointControlInterfacesData W) (dt : W) where
    enforce_position-keeps :
        (s : Enforcement W)
        → (Range.enforce_position d limits actual dt s).0.limits_enforced ≡ false
        → (Range.enforce_position d limits actual dt s).0.desired ≡ s.desired
    unfolding Range.enforce_position Range.limit_position clamp is_limited
    enforce_position-keeps s e = ground arith

    enforce_velocity-keeps :
        (s : Enforcement W)
        → (Range.enforce_velocity d limits actual dt s).0.limits_enforced ≡ false
        → ((Range.enforce_velocity d limits actual dt s).0.desired ≡ s.desired)
          × (s.limits_enforced ≡ false)
    unfolding Range.enforce_velocity Range.limit_velocity clamp is_limited
    enforce_velocity-keeps s e = ground arith

    enforce_effort-keeps :
        (s : Enforcement W)
        → (Range.enforce_effort d limits actual dt s).0.limits_enforced ≡ false
        → ((Range.enforce_effort d limits actual dt s).0.desired ≡ s.desired)
          × (s.limits_enforced ≡ false)
    unfolding Range.enforce_effort Range.limit_effort clamp is_limited
    enforce_effort-keeps s e = ground arith

    enforce_acceleration-keeps :
        (s : Enforcement W)
        → (Range.enforce_acceleration d limits actual dt s).0.limits_enforced ≡ false
        → ((Range.enforce_acceleration d limits actual dt s).0.desired ≡ s.desired)
          × (s.limits_enforced ≡ false)
    unfolding Range.enforce_acceleration Range.limit_acceleration clamp is_limited
    enforce_acceleration-keeps s e = ground arith

    enforce_jerk-keeps :
        (s : Enforcement W)
        → (Range.enforce_jerk d limits actual dt s).0.limits_enforced ≡ false
        → ((Range.enforce_jerk d limits actual dt s).0.desired ≡ s.desired)
          × (s.limits_enforced ≡ false)
    unfolding Range.enforce_jerk Range.limit_jerk clamp is_limited
    enforce_jerk-keeps s e = ground arith

    enforce_velocity-others :
        (s : Enforcement W)
        → let r = (Range.enforce_velocity d limits actual dt s).0 in
          r.desired.position ≡ s.desired.position
    unfolding Range.enforce_velocity Range.limit_velocity
    enforce_velocity-others s = ground arith

    enforce_effort-others :
        (s : Enforcement W)
        → let r = (Range.enforce_effort d limits actual dt s).0 in
          (r.desired.position ≡ s.desired.position) × (r.desired.velocity ≡ s.desired.velocity)
    unfolding Range.enforce_effort Range.limit_effort
    enforce_effort-others s = ground arith

    enforce_acceleration-others :
        (s : Enforcement W)
        → let r = (Range.enforce_acceleration d limits actual dt s).0 in
          (r.desired.position ≡ s.desired.position)
          × (r.desired.velocity ≡ s.desired.velocity)
          × (r.desired.effort ≡ s.desired.effort)
    unfolding Range.enforce_acceleration Range.limit_acceleration
    enforce_acceleration-others s = ground arith

    enforce_jerk-others :
        (s : Enforcement W)
        → let r = (Range.enforce_jerk d limits actual dt s).0 in
          (r.desired.position ≡ s.desired.position)
          × (r.desired.velocity ≡ s.desired.velocity)
          × (r.desired.effort ≡ s.desired.effort)
          × (r.desired.acceleration ≡ s.desired.acceleration)
    unfolding Range.enforce_jerk Range.limit_jerk
    enforce_jerk-others s = ground arith

    compute_position_limits-IsOrdered :
        (vel pos prev : Option W) {l : Limits W}
        → IsAsymmetric d
        → Helpers.compute_position_limits d limits vel pos prev dt ≡ returned l
        → IsOrdered l
    unfolding Helpers.compute_position_limits
    compute_position_limits-IsOrdered vel pos prev asym e =
        let bounds : Limits W = record {
          lower_limit = limits.min_position;
          upper_limit = limits.max_position;
        } in
        ground (
          arith,
          check_and_swap_limits-IsOrdered bounds asym,
          check_and_swap_limits-IsOrdered
              (Helpers.narrow d prev (Helpers.delta_position d limits vel dt) bounds) asym,
          check_and_swap_limits-IsOrdered
              (Helpers.narrow d pos (Helpers.delta_position d limits vel dt) bounds) asym,
        )

    if-IsOrdered :
        (b : Bool) (l m : Limits W) → IsOrdered l → IsOrdered m → IsOrdered (if b then l else m)
    if-IsOrdered true l m p q = p
    if-IsOrdered false l m p q = q

    -- The infinite limits are in order.
    abbrev pub InfinityIsOrdered : Type 0
    InfinityIsOrdered = d.lt d.infinity (d.neg d.infinity) ≡ false

    compute_velocity_limits-IsOrdered :
        (v : W) (pos prev : Option W)
        → IsAsymmetric d
        → InfinityIsOrdered
        → IsOrdered (Helpers.compute_velocity_limits d limits v pos prev dt)
    unfolding Helpers.compute_velocity_limits
    compute_velocity_limits-IsOrdered v pos prev asym inf =
        if-IsOrdered (not limits.has_velocity_limits) _ _ inf
          (check_and_swap_limits-IsOrdered _ asym)

    compute_effort_limits-IsOrdered :
        (pos vel : Option W)
        → IsAsymmetric d
        → InfinityIsOrdered
        → IsOrdered (Helpers.compute_effort_limits d limits pos vel)
    unfolding Helpers.compute_effort_limits
    compute_effort_limits-IsOrdered pos vel asym inf =
        if-IsOrdered (not limits.has_effort_limits) _ _ inf (check_and_swap_limits-IsOrdered _ asym)

    module _ (s : Enforcement W) where
      abbrev pub seeded : Enforcement W
      seeded = record s {
        prev_command = Range.seed_prev_command d limits actual dt s.desired s.prev_command;
        limits_enforced = false;
      }

      abbrev positioned : Enforcement W
      positioned = (Range.enforce_position d limits actual dt seeded).0

      abbrev moving : Enforcement W
      moving = (Range.enforce_velocity d limits actual dt positioned).0

      abbrev pushing : Enforcement W
      pushing = (Range.enforce_effort d limits actual dt moving).0

      abbrev accelerating : Enforcement W
      accelerating = (Range.enforce_acceleration d limits actual dt pushing).0

      -- A limiter that reports that no limit was enforced has left the command as it was.
      pub on_enforce-unlimited :
          (Range.on_enforce d limits actual dt s).1 ≡ returned false
          → (Range.on_enforce d limits actual dt s).0.desired ≡ s.desired
      unfolding Range.on_enforce
      on_enforce-unlimited e = ground (
        arith,
        enforce_position-keeps seeded,
        enforce_velocity-keeps positioned,
        enforce_effort-keeps moving,
        enforce_acceleration-keeps pushing,
        enforce_jerk-keeps accelerating,
      )

      abbrev pub enforced : JointControlInterfacesData W
      enforced = (Range.on_enforce d limits actual dt s).0.desired

      -- A position that is commanded and not NaN leaves the limiter within the limits that are computed
      -- for this cycle from the joint's limits, the actual state and the last command.
      pub on_enforce_position-IsWithin :
          {v : W} {l : Limits W}
          → IsAsymmetric d
          → d.le dt d.zero ≡ false
          → s.desired.position ≡ some v
          → d.is_nan v ≡ false
          → Helpers.compute_position_limits d limits actual.velocity actual.position
              seeded.prev_command.position dt
            ≡ returned l
          → (enforced.position ≡ some (clamp d v l.lower_limit l.upper_limit))
            × IsWithin (clamp d v l.lower_limit l.upper_limit) l
      unfolding Range.on_enforce Range.enforce_position Range.limit_position
      on_enforce_position-IsWithin {v = v} {l = l} asym pos c n e =
          let o : IsOrdered l =
            compute_position_limits-IsOrdered actual.velocity actual.position
              seeded.prev_command.position asym e in
          (
            ground (
              arith,
              enforce_velocity-others positioned,
              enforce_effort-others moving,
              enforce_acceleration-others pushing,
              enforce_jerk-others accelerating,
            ),
            clamp-IsWithin v l asym o,
          )

      -- A velocity that is commanded and not NaN leaves the limiter within the limits that are computed
      -- for this cycle, if nothing is thrown. Doubles are asymmetric and infinity is above its negative.
      pub on_enforce_velocity-IsWithin :
          {b : Bool} {v : W}
          → IsAsymmetric d
          → InfinityIsOrdered
          → d.le dt d.zero ≡ false
          → (Range.on_enforce d limits actual dt s).1 ≡ returned b
          → s.desired.velocity ≡ some v
          → d.is_nan v ≡ false
          → let l =
              Helpers.compute_velocity_limits d limits v actual.position
                seeded.prev_command.velocity dt in
            (enforced.velocity ≡ some (clamp d v l.lower_limit l.upper_limit))
            × IsWithin (clamp d v l.lower_limit l.upper_limit) l
      unfolding Range.on_enforce Range.enforce_velocity Range.limit_velocity Range.enforce_position
          Range.limit_position
      on_enforce_velocity-IsWithin {v = v} asym inf pos e c n =
          let l =
            Helpers.compute_velocity_limits d limits v actual.position seeded.prev_command.velocity
              dt in
          let o : IsOrdered l =
            compute_velocity_limits-IsOrdered v actual.position seeded.prev_command.velocity asym
              inf in
          (
            ground (
              arith,
              enforce_effort-others moving,
              enforce_acceleration-others pushing,
              enforce_jerk-others accelerating,
            ),
            clamp-IsWithin v l asym o,
          )

      -- An effort that is commanded and not NaN leaves the limiter within the limits that are computed
      -- for this cycle, if nothing is thrown. Doubles are asymmetric and infinity is above its negative.
      pub on_enforce_effort-IsWithin :
          {b : Bool} {v : W}
          → IsAsymmetric d
          → InfinityIsOrdered
          → d.le dt d.zero ≡ false
          → (Range.on_enforce d limits actual dt s).1 ≡ returned b
          → s.desired.effort ≡ some v
          → d.is_nan v ≡ false
          → let l = Helpers.compute_effort_limits d limits actual.position actual.velocity in
            (enforced.effort ≡ some (clamp d v l.lower_limit l.upper_limit))
            × IsWithin (clamp d v l.lower_limit l.upper_limit) l
      unfolding Range.on_enforce Range.enforce_effort Range.limit_effort Range.enforce_velocity
          Range.limit_velocity Range.enforce_position Range.limit_position
      on_enforce_effort-IsWithin {v = v} asym inf pos e c n =
          let l = Helpers.compute_effort_limits d limits actual.position actual.velocity in
          let o : IsOrdered l =
            compute_effort_limits-IsOrdered actual.position actual.velocity asym inf in
          (
            ground (arith, enforce_acceleration-others pushing, enforce_jerk-others accelerating),
            clamp-IsWithin v l asym o,
          )
