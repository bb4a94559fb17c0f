-- ===== src/Placement.antt =====
-- controllers/placement: the placements' strategies and decisions (Placement/Decisions), the objects
-- that are created for a cluster (Placement/Create), those that are deleted (Placement/Delete) and
-- the reconciler (Placement/Reconcile), with their properties.
pub mod Decisions
pub mod Create
pub mod Delete
pub mod Reconcile
pub mod Removal
pub mod Keeping
pub mod Collecting
pub mod Obsolete
pub mod Secrets
