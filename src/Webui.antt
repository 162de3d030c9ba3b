-- ===== src/Webui.antt =====
-- The workflow editor of fabricatio-webui: its executor of workflow graphs.
pub mod Graph
pub mod Sort
pub mod Executor
mod Tests
