-- ===== src/Installer.antt =====
-- controllers/installer/installer_controller.go: the objects and clients of the installer
-- (Installer/Targets), what it deploys (Installer/Deploy), what it deletes (Installer/Remove), the
-- reconciler and the prerequisites (Installer/Reconcile); their properties stand in the other
-- modules.
pub mod Targets
pub mod Deploy
pub mod Remove
pub mod Reconcile
pub mod Complete
pub mod Prerequisite
