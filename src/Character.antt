-- ===== src/Character.antt =====
-- The package fabricatio-character (packages/fabricatio-character/python/fabricatio_character).
pub mod Analysis
pub mod Impact
pub mod Mind
pub mod Needs
mod Tests
