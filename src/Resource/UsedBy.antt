-- ===== src/Resource/UsedBy.antt =====
-- Which controllers use a hardware component: `cache_controller_to_hardware` and
-- `get_cached_controllers_to_hardware` of `ResourceManager`, for the errors of its cycles.
use ros2_control.Base.{
  ◌||◌, Option, none, some, List, [], ◌∷◌, if◌then◌else◌, Name, has_item, add_item, lookup, assign,
}
use ros2_control.Resource.Storage.{ResourceManager, HardwareComponentInfo}

-- The first hardware component with the interface; the map's order stands for the unordered map's.
abbrev pub hardware_of : Name → List (Name × HardwareComponentInfo) → Option Name
hardware_of itf [] = none
hardware_of itf (entry ∷ entries) =
    if has_item entry.1.command_interfaces itf || has_item entry.1.state_interfaces itf
    then some entry.0
    else hardware_of itf entries

abbrev names_or : Option (List Name) → List Name
names_or none = []
names_or (some names) = names

module _ {D : Type 0} where
  -- `operator[]` of the cache
  unfoldable pub get_cached_controllers_to_hardware : Name → ResourceManager D → List Name
  get_cached_controllers_to_hardware hw r = names_or (lookup hw r.hardware_used_by_controllers)

  abbrev pub cache_one : Name → Name → ResourceManager D → ResourceManager D
  cache_one controller itf r = elim (hardware_of itf r.hardware_info_map) [
    | none ↦ r
    | some hw ↦ record r {
      hardware_used_by_controllers =
          assign hw (add_item (names_or (lookup hw r.hardware_used_by_controllers)) controller)
            r.hardware_used_by_controllers;
    }
  ]

  unfoldable pub cache_controller_to_hardware :
      Name → List Name → ResourceManager D → ResourceManager D
  cache_controller_to_hardware controller [] r = r
  cache_controller_to_hardware controller (itf ∷ itfs) r =
      cache_controller_to_hardware controller itfs (cache_one controller itf r)
