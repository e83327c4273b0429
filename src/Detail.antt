-- ===== src/Detail.antt =====
-- fs_ui/src/components/DetailPanel.tsx: the panel beside a page's list.
pub mod Selection
pub mod Breakdown
pub mod Rows
pub mod Children
pub mod Largest
mod Tests
