-- ===== src/Artifact.antt =====
-- artifact/: comparing artifacts.
pub mod Diff
pub mod Tests
