-- ===== src/Resource.antt =====
-- hardware_interface/src/resource_manager.cpp: the resource manager with its storage.
pub mod Storage
pub mod Interfaces
pub mod Transitions
pub mod Components
pub mod Cycle
pub mod Switch
pub mod UsedBy
pub mod Frame
pub mod Claims
pub mod Availability
pub mod Groups
pub mod Requests
