-- ===== src/Resource/Claims.antt =====
-- Who has claimed a command interface (`claim_command_interface`, `release_command_interface`).
pub mod Loans
pub mod Exclusive
use ros2_control.Base.{
  ℕ, ◌≡◌, refl, ◌↔◌, ◌⊎◌, Bool, true, false, Option, none, some, arith, ite, Name, name_discrete,
  name_eq, has_item, lookup, assign, lookup-assign, returned, thrown, if◌then◌else◌,
}
use ros2_control.Resource.Storage.{ResourceManager, Interface}
use ros2_control.Resource.Interfaces

module _ {D : Type 0} (key : Name) (r : ResourceManager D) where
  -- A claim is granted exactly if the interface is available, is recorded as not claimed, and is in
  -- store.
  pub claim-returned_iff :
      (itf : Interface)
      → ((Interfaces.claim_command_interface key r).1 ≡ returned itf) ↔ (
          (has_item r.available_command_interfaces key ≡ true)
          × (lookup key r.claimed_command_interface_map ≡ some false)
          × (lookup key r.command_interface_map ≡ some itf))
  unfolding Interfaces.claim_command_interface
  claim-returned_iff itf = ground arith

  -- A claim changes nothing but the record of the interface that it is for.
  pub claim_frame :
      let r' = (Interfaces.claim_command_interface key r).0 in
      (r' ≡ r)
      ⊎ (r' ≡ record r {
        claimed_command_interface_map = assign key true r.claimed_command_interface_map;
      })
  unfolding Interfaces.claim_command_interface
  claim_frame = ground arith

  -- While the loan lasts the interface cannot be claimed again: the second claim throws, and leaves
  -- the manager as it is.
  pub claim-claim :
      {itf : Interface}
      → (Interfaces.claim_command_interface key r).1 ≡ returned itf
      → let r' = (Interfaces.claim_command_interface key r).0 in
        Interfaces.claim_command_interface key r' ≡ (r', thrown)
  unfolding Interfaces.claim_command_interface
  claim-claim h = ground (arith, lookup-assign key key true r.claimed_command_interface_map)

  -- Once the loan is released the same interface can be claimed again.
  pub claim-release-claim :
      {itf : Interface}
      → (Interfaces.claim_command_interface key r).1 ≡ returned itf
      → let r' = (Interfaces.claim_command_interface key r).0 in
        (Interfaces.claim_command_interface key (Interfaces.release_command_interface key r')).1
        ≡ returned itf
  unfolding Interfaces.claim_command_interface Interfaces.release_command_interface
  claim-release-claim h =
      ground (arith, lookup-assign key key false (assign key true r.claimed_command_interface_map))
