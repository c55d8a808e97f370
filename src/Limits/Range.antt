-- ===== src/Limits/Range.antt =====
-- joint_limits/src/joint_range_limiter.cpp: `JointSaturationLimiter` for a joint's command.
use ros2_control.Base.{
  Bool, false, ◌||◌, Option, none, some, if◌then◌else◌, Outcome, returned, thrown, Action, ◌>>◌,
  done, modify, read_state, branch,
}
use ros2_control.Limits.Double.{Double, clamp, is_limited}
use ros2_control.Limits.Helpers.{
  JointLimits, JointControlInterfacesData, Limits, has_data, update_prev_command,
  compute_position_limits, compute_velocity_limits, compute_effort_limits,
  compute_acceleration_limits,
}

-- The limiter's last command, the command that is being changed, and whether it has been limited.
pub record Enforcement (W : Type 0) : Type 0 where
  pub prev_command : JointControlInterfacesData W
  pub desired : JointControlInterfacesData W
  pub limits_enforced : Bool

abbrev pub EnforcementAction : Type 0 → Type 0 → Type 0
EnforcementAction W = Action (Enforcement W)

module _ {W : Type 0} (d : Double W) (limits : JointLimits W)
    (actual : JointControlInterfacesData W) (dt : W) where
  -- What takes the place of a last command that there is not.
  abbrev seed : Option W → Option W → Option W → Option W
  seed none act prev = prev
  seed (some v) (some a) prev = some a
  seed (some v) none prev = if d.is_nan v then prev else some v

  unfoldable pub seed_prev_command :
      JointControlInterfacesData W → JointControlInterfacesData W → JointControlInterfacesData W
  seed_prev_command desired prev = if has_data prev then prev else record {
    joint_name =
        if has_data actual
        then actual.joint_name
        else if has_data desired
        then desired.joint_name
        else prev.joint_name;
    position = seed desired.position actual.position prev.position;
    velocity = seed desired.velocity actual.velocity prev.velocity;
    effort = seed desired.effort actual.effort prev.effort;
    acceleration = seed desired.acceleration actual.acceleration prev.acceleration;
    jerk = seed desired.jerk actual.jerk prev.jerk;
  }

  unfoldable pub limit_position : W → Limits W → Enforcement W → Enforcement W
  limit_position v l s = record s {
    desired = record s.desired { position = some (clamp d v l.lower_limit l.upper_limit) };
    limits_enforced = is_limited d v l.lower_limit l.upper_limit;
  }

  unfoldable pub limit_velocity : W → Limits W → Enforcement W → Enforcement W
  limit_velocity v l s = record s {
    desired = record s.desired { velocity = some (clamp d v l.lower_limit l.upper_limit) };
    limits_enforced = is_limited d v l.lower_limit l.upper_limit || s.limits_enforced;
  }

  unfoldable pub limit_effort : W → Limits W → Enforcement W → Enforcement W
  limit_effort v l s = record s {
    desired = record s.desired { effort = some (clamp d v l.lower_limit l.upper_limit) };
    limits_enforced = is_limited d v l.lower_limit l.upper_limit || s.limits_enforced;
  }

  unfoldable pub limit_acceleration : W → Limits W → Enforcement W → Enforcement W
  limit_acceleration v l s = record s {
    desired = record s.desired { acceleration = some (clamp d v l.lower_limit l.upper_limit) };
    limits_enforced = is_limited d v l.lower_limit l.upper_limit || s.limits_enforced;
  }

  unfoldable pub limit_jerk : W → Limits W → Enforcement W → Enforcement W
  limit_jerk v l s = record s {
    desired = record s.desired { jerk = some (clamp d v l.lower_limit l.upper_limit) };
    limits_enforced = is_limited d v l.lower_limit l.upper_limit || s.limits_enforced;
  }

  -- A value that is commanded and not NaN is limited.
  abbrev if_commanded :
      Option W → (W → EnforcementAction W (Unit {0})) → EnforcementAction W (Unit {0})
  if_commanded none f = done tt
  if_commanded (some v) f = branch (d.is_nan v) (done tt) (f v)

  abbrev at_limits :
      Outcome (Limits W)
      → (Limits W → Enforcement W → Enforcement W)
      → EnforcementAction W (Unit {0})
  at_limits thrown f s = (s, thrown)
  at_limits (returned l) f s = (f l s, returned tt)

  unfoldable pub enforce_position : EnforcementAction W (Unit {0})
  enforce_position s =
      if_commanded s.desired.position
        (λ v.
          at_limits
            (compute_position_limits d limits actual.velocity actual.position
              s.prev_command.position dt)
            (limit_position v))
        s

  unfoldable pub enforce_velocity : EnforcementAction W (Unit {0})
  enforce_velocity s =
      if_commanded s.desired.velocity
        (λ v. modify (
          limit_velocity v
            (compute_velocity_limits d limits v actual.position s.prev_command.velocity dt)))
        s

  unfoldable pub enforce_effort : EnforcementAction W (Unit {0})
  enforce_effort s =
      if_commanded s.desired.effort
        (λ v.
          modify (limit_effort v (compute_effort_limits d limits actual.position actual.velocity)))
        s

  unfoldable pub enforce_acceleration : EnforcementAction W (Unit {0})
  enforce_acceleration s =
      if_commanded s.desired.acceleration
        (λ v.
          modify (limit_acceleration v (compute_acceleration_limits d limits v actual.velocity)))
        s

  unfoldable pub enforce_jerk : EnforcementAction W (Unit {0})
  enforce_jerk s =
      if_commanded s.desired.jerk
        (λ v. modify (
          limit_jerk v
            (record { lower_limit = d.neg limits.max_jerk; upper_limit = limits.max_jerk })))
        s

  abbrev start : Enforcement W → Enforcement W
  start s = record s {
    prev_command = seed_prev_command s.desired s.prev_command;
    limits_enforced = false;
  }

  abbrev finish : Enforcement W → Enforcement W
  finish s = record s { prev_command = update_prev_command d s.desired s.prev_command }

  unfoldable pub on_enforce : EnforcementAction W Bool
  on_enforce = branch (d.le dt d.zero) (done false) (do
    modify start
    enforce_position
    enforce_velocity
    enforce_effort
    enforce_acceleration
    enforce_jerk
    modify finish
    read_state λ s. s.limits_enforced)
