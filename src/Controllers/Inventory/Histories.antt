-- ===== src/Controllers/Inventory/Histories.antt =====
-- The inventory in any history of services.
use ros2_control.Base.{
  ◌≡◌, ◌≢◌, refl, Bool, true, List, [], ◌∷◌, Name, has_item, Option-cases, Outcome-cases, inl, inr,
  Outcome, returned, ◌>>=◌, done, arith,
}
use ros2_control.Controllers.Spec.{
  ControllerPlugin, ControllerSpec, ControllerManager, CmAction, find_controller,
}
use ros2_control.Controllers.Loading
use ros2_control.Controllers.Loading.{ControllerLoader}
use ros2_control.Controllers.Unloading
use ros2_control.Controllers.Configuring
use ros2_control.Controllers.Sorting.Keeping.{names_of}
use ros2_control.Controllers.Inventory.{IsLoaded, Same-IsLoaded}
use ros2_control.Controllers.Inventory.Frames.{cleanup_controller-KeepsNames}
use ros2_control.Controllers.Inventory.Loading.{load_controller-IsLoaded}
use ros2_control.Controllers.Inventory.Sorting.{has_item-names}
use ros2_control.Controllers.Inventory.Unloading.{unload_controller-IsLoaded}
use ros2_control.Controllers.Inventory.Configuring.{configure_controller-IsLoaded}

pub data Request : Type 0 where
  loads configures cleans_up unloads : Name → Request

module _ {D E : Type 0} (p : ControllerPlugin E) (lo : ControllerLoader E) where
  abbrev pub serve : Request → CmAction D E Bool
  serve (Request.loads name) = Loading.load_controller lo name
  serve (Request.configures name) = Configuring.configure_controller p lo name
  serve (Request.cleans_up name) = Unloading.cleanup_controller lo name
  serve (Request.unloads name) = Unloading.unload_controller lo name

  abbrev pub serve_all : List Request → CmAction D E (Unit {0})
  serve_all [] = done tt
  serve_all (r ∷ rs) = serve r >>= λ _. serve_all rs

  serve-IsLoaded :
      (r : Request) (s : ControllerManager D E) (result : Bool)
      → IsLoaded s
      → (serve r s).1 ≡ returned result
      → IsLoaded (serve r s).0
  serve-IsLoaded (Request.loads name) s result h e = load_controller-IsLoaded lo name s h
  serve-IsLoaded (Request.configures name) s result h e =
      configure_controller-IsLoaded p lo name s h
  serve-IsLoaded (Request.cleans_up name) s result h e =
      Same-IsLoaded s _ (cleanup_controller-KeepsNames lo name s) h
  serve-IsLoaded (Request.unloads name) s result h e =
      unload_controller-IsLoaded lo name s result h e

  -- In any history of loading, configuring, cleaning up and unloading controllers in which no
  -- exception comes out, whatever the calls return and the plugins do: no controller is listed twice,
  -- the chain specs have an entry for each controller of the list and no other, each link of a chain
  -- stands once in the lists of both of its ends, and its ends are controllers of the list.
  pub serve_all-IsLoaded :
      (requests : List Request) (s : ControllerManager D E)
      → IsLoaded s
      → (serve_all requests s).1 ≡ returned tt
      → IsLoaded (serve_all requests s).0
  serve_all-IsLoaded [] s h = λ e. h
  serve_all-IsLoaded (r ∷ rs) s h = elim (Outcome-cases (serve r s).1) [
    | inl o ↦ rw (o, ◌>>=◌) λ e. absurd (ground (arith, e))
    | inr (result, o) ↦
        rw (o, ◌>>=◌) (serve_all-IsLoaded rs (serve r s).0 (serve-IsLoaded r s result h o))
  ]

abbrev pub Refused :
    {D E : Type 0} → ControllerManager D E × Outcome Bool → ControllerManager D E → Type 0
Refused r s = (r.0 ≡ s) × (r.1 ≢ returned true)

module _ {D E : Type 0} (lo : ControllerLoader E) where
  add_controller_impl-loaded :
      (spec : ControllerSpec E) (s : ControllerManager D E)
      → has_item (names_of s.controllers) spec.name ≡ true
      → Refused (Loading.add_controller_impl lo spec s) s
  unfolding Loading.add_controller_impl
  add_controller_impl-loaded spec s h =
      elim (Option-cases (find_controller spec.name s.controllers)) [
        | inl e ↦ absurd (ground (arith, e, has_item-names s.controllers spec.name, h))
        | inr (found, e) ↦ rw (e, Loading.add_controller_impl) (refl, λ q. ground (arith, q))
      ]

  caught-Refused : (s : ControllerManager D E) → Refused (Loading.caught s) s
  caught-Refused s = (ground arith, λ q. ground (arith, q))

  -- A controller that is loaded cannot be loaded again: whatever the loaders do, the call does not
  -- report success, and leaves the controller manager as it is.
  pub load_controller-loaded :
      (name : Name) (s : ControllerManager D E)
      → has_item (names_of s.controllers) name ≡ true
      → Refused (Loading.load_controller lo name s) s
  unfolding Loading.load_controller Loading.load_controller_of_type
  load_controller-loaded name s h =
      let made = λ (e : E) (chainable : Bool).
        add_controller_impl-loaded
          (Loading.new_spec name (lo.fallback_controllers name) chainable e) s h in
      elim (Option-cases (lo.type_parameter name)) [
        | inl o ↦ rw (o, Loading.load_controller) (refl, λ q. ground (arith, q))
        | inr (type, o) ↦ elim (Outcome-cases (Loading.create_instance lo type)) [
          | inl i ↦ (
            ground (arith, o, i, (caught-Refused s).0),
            λ q. ground (arith, o, i, (caught-Refused s).1, q),
          )
          | inr ((e, chainable), i) ↦ (
            ground (arith, o, i, (made e chainable).0),
            λ q. ground (arith, o, i, (made e chainable).1, q),
          )
        ]
      ]
