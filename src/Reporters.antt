-- ===== src/Reporters.antt =====
-- lib/Reporters: how a run is shown to the user.
pub mod SourceManager
pub mod Ide
pub mod Sqlite
pub mod Elements
mod Tests
