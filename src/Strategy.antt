-- ===== src/Strategy.antt =====
-- controllers/strategy: the selectors of a strategy's placement (Strategy/Selectors), the owners of
-- a placement (Strategy/Owners), the status that is written (Strategy/Report) and the reconciler
-- (Strategy/Reconcile); their properties stand in the other modules.
pub mod Selectors
pub mod Owners
pub mod Report
pub mod Reconcile
pub mod Partition
pub mod Release
pub mod Summary
pub mod Lifecycle
pub mod Upkeep
