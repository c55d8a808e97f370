-- ===== src/Controllers/Inventory.antt =====
-- The inventory of the controller manager: what it is for the list of controllers and the chain specs
-- to be in order, for the services that load, configure and unload controllers.
pub mod Frames
pub mod Loading
pub mod Sorting
pub mod Configuring
pub mod Unloading
pub mod Histories
pub mod Inactive
pub mod Configured
use ros2_control.Base.{
  ◌≡◌, refl, sym, ap, ◌∙◌, subst, Bool, true, false, ◌||◌, none, some, List, [], ◌∷◌, ◌++◌, Name,
  has_item, name_discrete, keys, IsUnique, arith,
}
use ros2_control.Controllers.Spec.{ControllerSpec, ControllerManager, CmAction}
use ros2_control.Controllers.Topology.Invariant.{IsChainMap}
use ros2_control.Controllers.Sorting.Keeping.{names_of}

module _ {D E : Type 0} where
  -- No controller is listed twice, the chain specs have an entry for each controller of the list and
  -- no other, and are in order.
  pub record IsLoaded (s : ControllerManager D E) : Type 0 where
    pub unique : IsUnique (names_of s.controllers)
    pub unique_keys : IsUnique (keys s.controller_chain_spec)
    pub listed :
        (n : Name) → has_item (names_of s.controllers) n ≡ has_item (keys s.controller_chain_spec) n
    pub chains : IsChainMap (keys s.controller_chain_spec) s.controller_chain_spec

  -- The same names and the same chains.
  pub record Same (s s' : ControllerManager D E) : Type 0 where
    pub names : names_of s'.controllers ≡ names_of s.controllers
    pub specs : s'.controller_chain_spec ≡ s.controller_chain_spec

  pub Same-refl : (s : ControllerManager D E) → Same s s
  Same-refl s = record { names = refl; specs = refl }

  pub Same-trans : {s t u : ControllerManager D E} → Same s t → Same t u → Same s u
  Same-trans h k = record { names = k.names ∙ h.names; specs = k.specs ∙ h.specs }

  pub Same-IsLoaded : (s s' : ControllerManager D E) → Same s s' → IsLoaded s → IsLoaded s'
  Same-IsLoaded s s' h l = record {
    unique = subst IsUnique (sym h.names) l.unique;
    unique_keys = subst (λ m. IsUnique (keys m)) (sym h.specs) l.unique_keys;
    listed = λ n.
        ap (λ l. has_item l n) h.names ∙ l.listed n ∙ ap (λ m. has_item (keys m) n) (sym h.specs);
    chains = subst (λ m. IsChainMap (keys m) m) (sym h.specs) l.chains;
  }
