-- ===== src/Web.antt =====
-- internal/web: the page of an analysis.
pub mod Diff
pub mod Page
