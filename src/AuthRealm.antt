-- ===== src/AuthRealm.antt =====
-- controllers/authrealm: the organizations of a GitHub connector (AuthRealm/Orgs), the connectors
-- (AuthRealm/Connectors), the dex server (AuthRealm/DexServer), what is created and deleted for an
-- AuthRealm (AuthRealm/Reconcile), the function of the templates (AuthRealm/Templates), and their
-- properties; AuthRealm/Rounds and Settling are about the end of a deletion, AuthRealm/Unguarded about what the webhook lets pass.
pub mod Orgs
pub mod Connectors
pub mod DexServer
pub mod Deletion
pub mod Reconcile
pub mod Absence
pub mod Quiescence
pub mod Templates
pub mod Renamed
pub mod Rounds
pub mod Settling
pub mod Teams
pub mod Naming
pub mod Unguarded
