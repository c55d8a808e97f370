-- ===== src/Limits/Helpers.antt =====
-- joint_limits/src/joint_limits_helpers.cpp, with the data of joint_limits.hpp and data_structures.hpp.
use ros2_control.Base.{
  Bool, true, false, ◌&&◌, ◌||◌, not, Option, none, some, if◌then◌else◌, Name, Outcome, returned,
  thrown,
}
use ros2_control.Limits.Double.{Double, min, max}

pub record JointLimits (W : Type 0) : Type 0 where
  pub min_position : W
  pub max_position : W
  pub max_velocity : W
  pub max_acceleration : W
  pub max_deceleration : W
  pub max_jerk : W
  pub max_effort : W
  pub has_position_limits : Bool
  pub has_velocity_limits : Bool
  pub has_acceleration_limits : Bool
  pub has_deceleration_limits : Bool
  pub has_effort_limits : Bool

pub record JointControlInterfacesData (W : Type 0) : Type 0 where
  pub joint_name : Name
  pub position : Option W
  pub velocity : Option W
  pub effort : Option W
  pub acceleration : Option W
  pub jerk : Option W

-- The structs that `DEFINE_LIMIT_STRUCT` makes.
pub record Limits (W : Type 0) : Type 0 where
  pub lower_limit : W
  pub upper_limit : W

abbrev pub has_value : {W : Type 0} → Option W → Bool
has_value none = false
has_value (some v) = true

abbrev pub has_data : {W : Type 0} → JointControlInterfacesData W → Bool
has_data c =
    has_value c.position
    || has_value c.velocity
    || has_value c.effort
    || has_value c.acceleration
    || has_value c.jerk

-- A test of a value that may be missing.
abbrev holds : {W : Type 0} → Option W → (W → Bool) → Bool
holds none f = false
holds (some v) f = f v

module _ {W : Type 0} (d : Double W) where
  unfoldable pub check_and_swap_limits : Limits W → Limits W
  check_and_swap_limits l =
      if d.lt l.upper_limit l.lower_limit
      then record { lower_limit = l.upper_limit; upper_limit = l.lower_limit }
      else l

  -- Whether it throws.
  unfoldable pub is_out_of_bounds : Option W → JointLimits W → Bool
  is_out_of_bounds actual_position limits =
      limits.has_position_limits
      && holds actual_position (λ p.
        d.lt (d.add limits.max_position d.out_of_bounds_exception_tolerance) p
        || d.lt p (d.sub limits.min_position d.out_of_bounds_exception_tolerance))

  abbrev newer : Option W → Option W → Option W
  newer none old = old
  newer (some v) old = if d.is_nan v then old else some v

  unfoldable pub update_prev_command :
      JointControlInterfacesData W → JointControlInterfacesData W → JointControlInterfacesData W
  update_prev_command desired prev = record {
    joint_name = desired.joint_name;
    position = newer desired.position prev.position;
    velocity = newer desired.velocity prev.velocity;
    effort = newer desired.effort prev.effort;
    acceleration = newer desired.acceleration prev.acceleration;
    jerk = newer desired.jerk prev.jerk;
  }

  abbrev abs_or_zero : Option W → W
  abs_or_zero none = d.zero
  abs_or_zero (some v) = d.fabs v

  abbrev pub or_else : Option W → Option W → Option W
  or_else none b = b
  or_else (some v) b = some v

  -- How far the position may move in a cycle.
  unfoldable pub delta_position : JointLimits W → Option W → W → W
  delta_position limits act_vel dt =
      let delta_vel =
        if limits.has_acceleration_limits
        then d.add (abs_or_zero act_vel) (d.mul limits.max_acceleration dt)
        else limits.max_velocity in
      d.mul (min d limits.max_velocity delta_vel) dt

  unfoldable pub narrow : Option W → W → Limits W → Limits W
  narrow none delta l = l
  narrow (some reference) delta l =
      let lower = max d (min d (d.sub reference delta) l.upper_limit) l.lower_limit in
      record {
        lower_limit = lower;
        upper_limit = min d (max d (d.add reference delta) lower) l.upper_limit;
      }

  unfoldable pub compute_position_limits :
      JointLimits W → Option W → Option W → Option W → W → Outcome (Limits W)
  unfolding check_and_swap_limits is_out_of_bounds narrow delta_position
  compute_position_limits limits act_vel act_pos prev_command_pos dt =
      let bounds : Limits W = record {
        lower_limit = limits.min_position;
        upper_limit = limits.max_position;
      } in
      if is_out_of_bounds act_pos limits
      then thrown
      else returned (
          check_and_swap_limits (
            if limits.has_velocity_limits
            then narrow (or_else prev_command_pos act_pos) (delta_position limits act_vel dt) bounds
            else bounds))

  abbrev symmetric : W → Limits W
  symmetric v = record { lower_limit = d.neg v; upper_limit = v }

  abbrev unlimited : Limits W
  unlimited = symmetric d.infinity

  abbrev no_motion : Limits W
  no_motion = record { lower_limit = d.zero; upper_limit = d.zero }

  -- The velocity that does not leave the position's bounds within the cycle; none if the joint is far
  -- outside, or outside and heading further out.
  unfoldable pub limit_by_position : JointLimits W → W → Option W → W → Limits W → Limits W
  limit_by_position limits desired_vel none dt l = l
  limit_by_position limits desired_vel (some p) dt l =
      let hi = limits.max_position in
      let lo = limits.min_position in
      let reach : Limits W = record {
        lower_limit = max d (d.div (d.sub lo p) dt) l.lower_limit;
        upper_limit = min d (d.div (d.sub hi p) dt) l.upper_limit;
      } in
      let above = d.add hi d.position_bounds_tolerance in
      let below = d.sub lo d.position_bounds_tolerance in
      if d.lt hi p || d.lt p lo
      then if (d.lt p above && d.lt lo p && d.le d.zero desired_vel)
          || (d.lt below p && d.lt p hi && d.le desired_vel d.zero)
        then no_motion
        else if d.lt above p || d.lt p below
        then no_motion
        else reach
      else reach

  unfoldable pub limit_by_acceleration : JointLimits W → Option W → W → Limits W → Limits W
  limit_by_acceleration limits none dt l = l
  limit_by_acceleration limits (some v) dt l =
      let delta_vel = d.mul limits.max_acceleration dt in
      record {
        lower_limit = max d (d.sub v delta_vel) l.lower_limit;
        upper_limit = min d (d.add v delta_vel) l.upper_limit;
      }

  unfoldable pub compute_velocity_limits : JointLimits W → W → Option W → Option W → W → Limits W
  unfolding check_and_swap_limits limit_by_position limit_by_acceleration
  compute_velocity_limits limits desired_vel act_pos prev_command_vel dt =
      let l = symmetric limits.max_velocity in
      let l' =
        if limits.has_position_limits
        then limit_by_position limits desired_vel act_pos dt l
        else l in
      if not limits.has_velocity_limits
      then unlimited
      else check_and_swap_limits (
          if limits.has_acceleration_limits
          then limit_by_acceleration limits prev_command_vel dt l'
          else l')

  abbrev zero_lower : Limits W → Limits W
  zero_lower l = record l { lower_limit = d.zero }

  abbrev zero_upper : Limits W → Limits W
  zero_upper l = record l { upper_limit = d.zero }

  -- No effort further out at a bound of the position, nor at too high a velocity.
  unfoldable pub effort_at_bound : JointLimits W → Option W → Option W → Limits W → Limits W
  effort_at_bound limits (some p) (some v) l =
      if d.le p limits.min_position && d.le v d.zero
      then zero_lower l
      else if d.le limits.max_position p && d.le d.zero v
      then zero_upper l
      else l
  effort_at_bound limits _ _ l = l

  unfoldable pub effort_at_speed : JointLimits W → Option W → Limits W → Limits W
  effort_at_speed limits none l = l
  effort_at_speed limits (some v) l =
      if d.lt v (d.neg limits.max_velocity)
      then zero_lower l
      else if d.lt limits.max_velocity v
      then zero_upper l
      else l

  unfoldable pub compute_effort_limits : JointLimits W → Option W → Option W → Limits W
  unfolding check_and_swap_limits effort_at_bound effort_at_speed
  compute_effort_limits limits act_pos act_vel =
      let l = symmetric limits.max_effort in
      let l' = if limits.has_position_limits then effort_at_bound limits act_pos act_vel l else l in
      if not limits.has_effort_limits
      then unlimited
      else check_and_swap_limits
          (if limits.has_velocity_limits then effort_at_speed limits act_vel l' else l')

  abbrev is_braking : W → W → Bool
  is_braking desired_acceleration v =
      (d.lt desired_acceleration d.zero && d.lt d.zero v)
      || (d.lt d.zero desired_acceleration && d.lt v d.zero)

  unfoldable pub compute_acceleration_limits : JointLimits W → W → Option W → Limits W
  unfolding check_and_swap_limits
  compute_acceleration_limits limits desired_acceleration actual_velocity = check_and_swap_limits (
      if limits.has_deceleration_limits && holds actual_velocity (is_braking desired_acceleration)
      then symmetric limits.max_deceleration
      else if limits.has_acceleration_limits
      then symmetric limits.max_acceleration
      else unlimited)
