-- ===== src/Tests/Limits.antt =====
-- The limiter over whole millimetres, with `none` for NaN.
use ros2_control.Base.{
  ℕ, ◌+◌, ◌-◌, ◌*◌, ◌≡◌, refl, Bool, true, false, Option, none, some, arith, ltb, leb,
}
use ros2_control.Limits.Double.{Double, clamp, is_limited, IsAsymmetric}
use ros2_control.Limits.Helpers
use ros2_control.Limits.Helpers.{JointLimits, JointControlInterfacesData, Limits}
use ros2_control.Limits.Range
use ros2_control.Limits.Range.{Enforcement}
use ros2_control.Limits.Enforcement
use ros2_control.Limits.Bounds
use ros2_control.Limits.Bounds.{IsOrder}

-- Natural numbers are enough for the example: a difference stops at 0, and nothing is divided.
abbrev Millimetres : Type 0
Millimetres = Option ℕ

abbrev compares : (ℕ → ℕ → Bool) → Millimetres → Millimetres → Bool
compares f (some a) (some b) = f a b
compares f _ _ = false

abbrev combines : (ℕ → ℕ → ℕ) → Millimetres → Millimetres → Millimetres
combines f (some a) (some b) = some (f a b)
combines f _ _ = none

abbrev is_none : Millimetres → Bool
is_none none = true
is_none (some a) = false

abbrev millimetres : Double Millimetres
millimetres = record {
  zero = some 0;
  infinity = some 1_000_000;
  position_bounds_tolerance = some 2;
  out_of_bounds_exception_tolerance = some 9;
  lt = compares ltb;
  le = compares leb;
  is_nan = is_none;
  neg = λ a. combines (λ x y. x - y) (some 0) a;
  fabs = λ a. a;
  add = combines (λ x y. x + y);
  sub = combines (λ x y. x - y);
  mul = combines (λ x y. x * y);
  div = λ a b. none;
}

millimetres-IsAsymmetric : IsAsymmetric millimetres
millimetres-IsAsymmetric a b e = ground arith

millimetres-IsOrder : IsOrder millimetres
millimetres-IsOrder = record {
  asymmetric = millimetres-IsAsymmetric;
  below = λ a b c n p q. ground arith;
  above = λ a b c n p q. ground arith;
}

abbrev no_data : JointControlInterfacesData Millimetres
no_data = record {
  joint_name = "joint1";
  position = none;
  velocity = none;
  effort = none;
  acceleration = none;
  jerk = none;
}

abbrev joint : JointLimits Millimetres
joint = record {
  min_position = some 100;
  max_position = some 900;
  max_velocity = some 50;
  max_acceleration = some 5;
  max_deceleration = some 5;
  max_jerk = some 1;
  max_effort = some 20;
  has_position_limits = true;
  has_velocity_limits = true;
  has_acceleration_limits = false;
  has_deceleration_limits = false;
  has_effort_limits = true;
}

abbrev at_870 : JointControlInterfacesData Millimetres
at_870 = record no_data { position = some (some 870) }

abbrev to_1500 : Enforcement Millimetres
to_1500 = record {
  prev_command = no_data;
  desired = record no_data {
    position = some (some 1500);
    velocity = some (some 70);
    effort = some (some 10);
  };
  limits_enforced = false;
}

abbrev reach : Limits Millimetres
reach = record { lower_limit = some 820; upper_limit = some 900 }

on_enforce_position-bounds_example :
    (w : Millimetres) × ((Range.on_enforce millimetres joint at_870
        (some 1)
        to_1500).0.desired.position
      ≡ some w)
    × (millimetres.lt w (some 100) ≡ false)
    × (millimetres.lt (some 900) w ≡ false)
unfolding Range.on_enforce Range.seed_prev_command Range.enforce_position Range.enforce_velocity
    Range.enforce_effort Range.enforce_acceleration Range.enforce_jerk Range.limit_position
    Range.limit_velocity Range.limit_effort Helpers.delta_position Helpers.narrow
    Helpers.check_and_swap_limits Helpers.compute_position_limits Helpers.compute_velocity_limits
    Helpers.compute_effort_limits Helpers.limit_by_position Helpers.limit_by_acceleration
    Helpers.effort_at_bound Helpers.effort_at_speed Helpers.is_out_of_bounds clamp is_limited
on_enforce_position-bounds_example =
    Bounds.on_enforce_position-bounds millimetres joint at_870 (some 1) to_1500 {v = some 1500}
      {l = reach} millimetres-IsOrder (refl, refl, refl) (refl, refl) refl refl refl refl

on_enforce_position-IsWithin_example :
    ((Range.on_enforce millimetres joint at_870 (some 1) to_1500).0.desired.position
      ≡ some (some 900))
    × ((millimetres.lt (some 900) (some 820) ≡ false)
        × (millimetres.lt (some 900) (some 900) ≡ false))
unfolding Range.on_enforce Range.seed_prev_command Range.enforce_position Range.enforce_velocity
    Range.enforce_effort Range.enforce_acceleration Range.enforce_jerk Range.limit_position
    Range.limit_velocity Range.limit_effort Helpers.delta_position Helpers.narrow
    Helpers.check_and_swap_limits Helpers.compute_position_limits Helpers.compute_velocity_limits
    Helpers.compute_effort_limits Helpers.limit_by_position Helpers.limit_by_acceleration
    Helpers.effort_at_bound Helpers.effort_at_speed Helpers.is_out_of_bounds clamp is_limited
on_enforce_position-IsWithin_example =
    Enforcement.on_enforce_position-IsWithin millimetres joint at_870 (some 1) to_1500
      {v = some 1500} {l = reach} millimetres-IsAsymmetric refl refl refl refl

on_enforce_velocity-IsWithin_example :
    ((Range.on_enforce millimetres
        (record joint { has_position_limits = false })
        at_870
        (some 1)
        to_1500).0.desired.velocity
      ≡ some (some 50))
    × ((millimetres.lt (some 50) (some 0) ≡ false) × (millimetres.lt (some 50) (some 50) ≡ false))
unfolding Range.on_enforce Range.seed_prev_command Range.enforce_position Range.enforce_velocity
    Range.enforce_effort Range.enforce_acceleration Range.enforce_jerk Range.limit_position
    Range.limit_velocity Range.limit_effort Helpers.delta_position Helpers.narrow
    Helpers.check_and_swap_limits Helpers.compute_position_limits Helpers.compute_velocity_limits
    Helpers.compute_effort_limits Helpers.limit_by_position Helpers.limit_by_acceleration
    Helpers.effort_at_bound Helpers.effort_at_speed Helpers.is_out_of_bounds clamp is_limited
on_enforce_velocity-IsWithin_example =
    Enforcement.on_enforce_velocity-IsWithin millimetres
      (record joint { has_position_limits = false }) at_870 (some 1) to_1500 {b = true}
      {v = some 70} millimetres-IsAsymmetric refl refl refl refl refl

on_enforce_effort-IsWithin_example :
    ((Range.on_enforce millimetres joint at_870 (some 1) to_1500).0.desired.effort ≡ some (some 10))
    × ((millimetres.lt (some 10) (some 0) ≡ false) × (millimetres.lt (some 20) (some 10) ≡ false))
unfolding Range.on_enforce Range.seed_prev_command Range.enforce_position Range.enforce_velocity
    Range.enforce_effort Range.enforce_acceleration Range.enforce_jerk Range.limit_position
    Range.limit_velocity Range.limit_effort Helpers.delta_position Helpers.narrow
    Helpers.check_and_swap_limits Helpers.compute_position_limits Helpers.compute_velocity_limits
    Helpers.compute_effort_limits Helpers.limit_by_position Helpers.limit_by_acceleration
    Helpers.effort_at_bound Helpers.effort_at_speed Helpers.is_out_of_bounds clamp is_limited
on_enforce_effort-IsWithin_example =
    Enforcement.on_enforce_effort-IsWithin millimetres joint at_870 (some 1) to_1500 {b = true}
      {v = some 10} millimetres-IsAsymmetric refl refl refl refl refl

abbrev to_880 : Enforcement Millimetres
to_880 = record to_1500 { desired = record no_data { position = some (some 880) } }

on_enforce-unlimited_example :
    (Range.on_enforce millimetres joint at_870 (some 1) to_880).0.desired ≡ to_880.desired
unfolding Range.on_enforce Range.seed_prev_command Range.enforce_position Range.enforce_velocity
    Range.enforce_effort Range.enforce_acceleration Range.enforce_jerk Range.limit_position
    Range.limit_velocity Range.limit_effort Helpers.delta_position Helpers.narrow
    Helpers.check_and_swap_limits Helpers.compute_position_limits Helpers.compute_velocity_limits
    Helpers.compute_effort_limits Helpers.limit_by_position Helpers.limit_by_acceleration
    Helpers.effort_at_bound Helpers.effort_at_speed Helpers.is_out_of_bounds clamp is_limited
on_enforce-unlimited_example =
    Enforcement.on_enforce-unlimited millimetres joint at_870 (some 1) to_880 refl
