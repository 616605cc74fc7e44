-- ===== src/Spec.antt =====
-- Package `spec`: format constants, validation of paths, component names and configs, settings.
pub mod PathKind
pub mod Errors
pub mod BundlePath
pub mod Component
pub mod Settings
pub mod Locales
pub mod Configs
pub mod BundleTree
pub mod Tests
