-- ===== src/OAuth.antt =====
-- controllers/clusteroauth: what both managers share (OAuth/Aggregate), the manager of a cluster
-- that runs its own control plane (OAuth/Backplane), the manager of a hosted cluster
-- (OAuth/Hypershift, with the items of its configuration in OAuth/Items), the status that is
-- written (OAuth/Report) and the reconciler (OAuth/Reconcile); their properties stand in the other
-- modules.
pub mod Aggregate
pub mod Report
pub mod Backplane
pub mod Items
pub mod Hypershift
pub mod Reconcile
pub mod Providers
pub mod Swap
pub mod Restore
pub mod Forget
pub mod References
pub mod Applied
pub mod Progress
pub mod Others
pub mod Wiring
pub mod Undone
