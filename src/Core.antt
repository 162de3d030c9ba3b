-- ===== src/Core.antt =====
-- The package fabricatio-core (packages/fabricatio-core/python/fabricatio_core).
pub mod Config
pub mod Emitter
pub mod Event
pub mod Task
pub mod Utils
pub mod Workflow
pub mod Role
pub mod Usages
