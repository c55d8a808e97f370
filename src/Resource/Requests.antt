-- ===== src/Resource/Requests.antt =====
-- Which requests for a mode switch reach the hardware (`prepare_command_mode_switch`).
use ros2_control.Base.{
  ◌≡◌, refl, true, false, ◌&&◌, ◌||◌, List, [], ◌∷◌, arith, Name, has_item, returned,
}
use ros2_control.Hardware.Plugin.{Plugin}
use ros2_control.Resource.Storage.{ResourceManager}
use ros2_control.Resource.Interfaces
use ros2_control.Resource.Switch

has_item-keep_items :
    (keep xs : List Name) (a : Name)
    → has_item (Switch.keep_items keep xs) a ≡ has_item xs a && has_item keep a
unfolding has_item
has_item-keep_items keep [] a = refl
has_item-keep_items keep (x ∷ xs) a = ground (arith, has_item-keep_items keep xs a)

-- Whichever of the lists is the longer one, a component's share of a request is what stands both in
-- its list of command interfaces and in the request.
pub find_common_iff :
    (itfs request : List Name) (a : Name)
    → has_item (Switch.find_common_hardware_interfaces itfs request) a
      ≡ has_item itfs a && has_item request a
unfolding Switch.find_common_hardware_interfaces
find_common_iff itfs request a =
    ground (arith, has_item-keep_items itfs request a, has_item-keep_items request itfs a)

module _ {D : Type 0} (r : ResourceManager D) where
  check_exist-item :
      (itfs : List Name) (a : Name)
      → Switch.check_exist itfs r ≡ true
      → has_item itfs a ≡ true
      → Interfaces.command_interface_exists a r ≡ true
  unfolding Switch.check_exist has_item
  check_exist-item [] a e h = cc
  check_exist-item (x ∷ xs) a e h = ground (arith, check_exist-item xs a)

  check_available-item :
      (itfs : List Name) (a : Name)
      → Switch.check_available itfs r ≡ true
      → has_item itfs a ≡ true
      → has_item r.available_command_interfaces a ≡ true
  unfolding Switch.check_available has_item Interfaces.command_interface_is_available
  check_available-item [] a e h = cc
  check_available-item (x ∷ xs) a e h = ground (arith, check_available-item xs a)

  -- A request that is accepted names only command interfaces that exist and are available.
  pub prepare_accepted :
      (p : Plugin D) (start stop : List Name) (a : Name)
      → (Switch.prepare_command_mode_switch p start stop r).1 ≡ returned true
      → has_item start a || has_item stop a ≡ true
      → (Interfaces.command_interface_exists a r ≡ true)
        × (has_item r.available_command_interfaces a ≡ true)
  unfolding Switch.prepare_command_mode_switch has_item
  prepare_accepted p [] [] a e h = cc
  prepare_accepted p [] (x ∷ xs) a e h =
      ground (arith, check_exist-item (x ∷ xs) a, check_available-item (x ∷ xs) a)
  prepare_accepted p (x ∷ xs) stop a e h = ground (
    arith,
    check_exist-item (x ∷ xs) a,
    check_available-item (x ∷ xs) a,
    check_exist-item stop a,
    check_available-item stop a,
  )

  -- A request that names an interface which is missing or not available is refused, and no hardware
  -- is asked: the manager, devices included, is as before.
  pub prepare_refused :
      (p : Plugin D) (start stop : List Name) (a : Name)
      → has_item start a || has_item stop a ≡ true
      → Interfaces.command_interface_exists a r && has_item r.available_command_interfaces a ≡ false
      → Switch.prepare_command_mode_switch p start stop r ≡ (r, returned false)
  unfolding Switch.prepare_command_mode_switch has_item
  prepare_refused p [] [] a h n = cc
  prepare_refused p [] (x ∷ xs) a h n =
      ground (arith, check_exist-item (x ∷ xs) a, check_available-item (x ∷ xs) a)
  prepare_refused p (x ∷ xs) stop a h n = ground (
    arith,
    check_exist-item (x ∷ xs) a,
    check_available-item (x ∷ xs) a,
    check_exist-item stop a,
    check_available-item stop a,
  )
