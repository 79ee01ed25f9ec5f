-- ===== src/Manager.antt =====
-- pkg/server/cluster_manager.go: the store of cluster configurations with their runtimes, and the manager
-- that guards it.
pub mod Assemble
pub mod Content
pub mod Slot
pub mod SlotLaws
pub mod Changes
pub mod ChangesLaws
pub mod Store
pub mod Endpoints
pub mod Operations
pub mod Configs
pub mod Ownership
pub mod Published
pub mod Swap
pub mod SwapLaws
pub mod Found
pub mod Registered
mod Tests
