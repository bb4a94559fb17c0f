-- ===== src/Helpers.antt =====
-- pkg/helpers: names (Helpers/Names), conditions and positions in a status (Helpers/Status), random
-- texts (Helpers/Random), and the lookups and creations that the controllers share
-- (Helpers/Lookup).
pub mod Names
pub mod Status
pub mod Random
pub mod RandomBounds
pub mod Naming
pub mod Lookup
pub mod Position
pub mod Entries
pub mod Hypershift
