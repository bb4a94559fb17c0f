-- ===== src/Chain.antt =====
-- What the deletion of a placement leaves to the deletion of its AuthRealm (Chain/Outlive).
pub mod Outlive
