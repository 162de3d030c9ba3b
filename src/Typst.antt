-- ===== src/Typst.antt =====
-- Articles of fabricatio-typst: packages/fabricatio-typst/python/fabricatio_typst.
pub mod Article
