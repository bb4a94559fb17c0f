-- ===== src/Watches.antt =====
-- Which events and objects make a controller reconcile: the predicates and map functions that
-- `SetupWithManager` registers (Watches/Predicates, Watches/Maps), and what they reach
-- (Watches/Reach).
pub mod Predicates
pub mod Maps
pub mod Reach
