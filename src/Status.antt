-- ===== src/Status.antt =====
-- controllers/manifestwork and controllers/hypershiftdeployment: the copies of the status of a
-- manifest work (Status/Manifest) and of a hypershift deployment (Status/Deployment) in the status
-- of the AuthRealms; their properties stand in the other modules.
pub mod Manifest
pub mod Deployment
pub mod Written
