-- ===== src/Limits/Double.antt =====
-- What the limiters do with a `double`, as a parameter: no law is assumed but where a theorem says so.
use ros2_control.Base.{◌≡◌, Bool, true, false, ◌||◌, if◌then◌else◌}

pub record Double (W : Type 0) : Type 0 where
  pub zero : W
  pub infinity : W
  -- POSITION_BOUNDS_TOLERANCE and OUT_OF_BOUNDS_EXCEPTION_TOLERANCE of joint_limits_helpers.hpp
  pub position_bounds_tolerance : W
  pub out_of_bounds_exception_tolerance : W
  -- `<` and `<=`
  pub lt : W → W → Bool
  pub le : W → W → Bool
  pub is_nan : W → Bool
  pub neg : W → W
  pub fabs : W → W
  pub add : W → W → W
  pub sub : W → W → W
  pub mul : W → W → W
  pub div : W → W → W

module _ {W : Type 0} (d : Double W) where
  -- `std::min`, `std::max` and `std::clamp`, as the standard defines them by `<`
  abbrev pub min : W → W → W
  min a b = if d.lt b a then b else a

  abbrev pub max : W → W → W
  max a b = if d.lt a b then b else a

  unfoldable pub clamp : W → W → W → W
  clamp v lo hi = if d.lt v lo then lo else if d.lt hi v then hi else v

  unfoldable pub is_limited : W → W → W → Bool
  is_limited value low high = d.lt value low || d.lt high value

  -- `<` never holds both ways.
  abbrev pub IsAsymmetric : Type 0
  IsAsymmetric = (a b : W) → d.lt a b ≡ true → d.lt b a ≡ false
