-- ===== src/Capabilities.antt =====
-- The package fabricatio-capabilities (packages/fabricatio-capabilities/python/fabricatio_capabilities).
pub mod Order
pub mod Rating
mod Tests
