-- ===== src/Config.antt =====
-- internal/config: the document, its validation, and the snapshot that requests hold.
pub mod File
pub mod Egress
pub mod Std
pub mod Error
pub mod Validate
pub mod Runtime
pub mod Resolve
pub mod Interpolate
pub mod Store
