-- ===== src/Tests/Loop.antt =====
-- A cycle of the realtime loop in which the controller of the joint fails.
use ros2_control.Base.{ℕ, true, false, none, some, [], arith, lookup}
use ros2_control.Base.Int.{pos}
use ros2_control.Hardware.Types.{LifecycleState}
use ros2_control.Controllers.Spec.{ControllerManager}
use ros2_control.Controllers.Cycle
use ros2_control.Controllers.Cycle.{UpdatePlugin, CycleInput}
use ros2_control.Controllers.Cycle.Ownership
use ros2_control.Controllers.Switching.Accounts.{copies}
use ros2_control.Controllers.Switching.Ownership.{held, Holds}
use ros2_control.Tests.Fixtures.{willing, undisturbed}
use ros2_control.Tests.Chain.{code, manager, no_request}

abbrev failing_update : UpdatePlugin ℕ
failing_update = record {
  is_async = λ d. false;
  update_rate = λ d. 100;
  trigger_update = λ period d. (
    d,
    record {
      raised = false;
      successful = true;
      is_ok = false;
      execution_time = some 5;
      period = none;
    },
  );
}

abbrev cycle : CycleInput
cycle = record {
  clock_started = true;
  is_time_zero = false;
  current_time = 20_000_000;
  period = pos 10_000_000;
  update_rate = 100;
  is_locked = false;
  surroundings = undisturbed;
}

abbrev running : ControllerManager ℕ ℕ
running = manager LifecycleState.active no_request

running-Holds : Holds [] running
unfolding held copies lookup
running-Holds = record { counted = λ k. ground arith; stored = λ k. ground arith }

read_update_write-Holds_example :
    Holds [] (Cycle.read code willing failing_update cycle running).0
    × Holds [] (Cycle.update code willing failing_update cycle running).0
    × Holds [] (Cycle.write code willing failing_update cycle running).0
read_update_write-Holds_example =
    Ownership.read_update_write-Holds code willing failing_update cycle running running-Holds
