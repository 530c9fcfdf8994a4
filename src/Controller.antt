-- ===== src/Controller.antt =====
-- internal/controller/safeevict_controller.go, in three parts.
pub mod Defs
pub mod Stages
pub mod Loop
pub mod Returns
pub mod Texts
pub mod Total
pub mod Progress
pub mod Quiet
pub mod Merged
pub mod Creates
pub mod Restore
unfoldable pub use Loop.{reconcile}
