-- ===== src/Search.antt =====
-- fs_ui/src/pages/SearchPage.tsx: the advanced search.
pub mod Json
pub mod Fields
pub mod Columns
pub mod Rules
pub mod Saved
pub mod Csv
pub mod Page
pub mod Results
mod Tests
