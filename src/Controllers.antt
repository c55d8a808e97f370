-- ===== src/Controllers.antt =====
-- The controller manager (controller_manager/src/controller_manager.cpp).
pub mod Lists
pub mod Spec
pub mod Configuration
pub mod Loans
pub mod Changes
pub mod Chains
pub mod Fallback
pub mod Conflicts
pub mod Claimable
pub mod Requests
pub mod Switching
pub mod Callback
pub mod Failures
pub mod Cycle
pub mod Topology
pub mod Sorting
pub mod Loading
pub mod Unloading
pub mod Configuring
pub mod Inventory
