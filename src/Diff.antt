-- ===== src/Diff.antt =====
-- The package fabricatio-diff (packages/fabricatio-diff/python/fabricatio_diff).
pub mod Primitives
pub mod Hashline
pub mod Patch
