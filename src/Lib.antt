-- ===== src/Lib.antt =====
-- A model of the identity configuration management operator, the Kubernetes operator that gives
-- managed clusters an OAuth configuration backed by dex.
--
-- The program's parts. An administrator writes an AuthRealm; the webhook (webhook) admits it. The
-- AuthRealm controller (controllers/authrealm) runs a dex server for it, whose connectors follow
-- its identity providers, and creates two strategies, for clusters that are hosted by another
-- cluster (hypershift) and for those that are not (backplane). The strategy controller
-- (controllers/strategy) makes a placement for each strategy out of the user's placement. The
-- placement controller (controllers/placement) creates, for each cluster that is decided on, a
-- client secret, a dex client and a ClusterOAuth, and deletes those of clusters that are no longer
-- decided on. The ClusterOAuth controller (controllers/clusteroauth) makes one OAuth of the
-- ClusterOAuths of a cluster, saves the cluster's original OAuth, pushes the new one through a
-- manifest work or a hypershift deployment, and restores the original in the end. Two more
-- controllers (controllers/manifestwork, controllers/hypershiftdeployment) copy the status of those
-- into the status of the AuthRealm. The installer (controllers/installer) deploys and removes the
-- operator and the webhook. The parts interact through API objects only: each reconciler reads and
-- writes the world, and asks to be called again.
--
-- The files.
--   Base: the shared names, Boolean tests, lists over native numbers and texts.
--   Api: the objects (Api/Meta, Identity, Objects, Dex), with the fields that the controllers use;
--     Api/Action, what a Go function does: `W → Result A × W`, where a result is a value, an error
--     or a panic, and the world comes back after an error too; Api/Object, an object that a function
--     changes through a pointer, beside the world; Api/Client, the record `Env` of the API server
--     and the third-party helpers, which every reconciler takes as a parameter; Api/Work, the
--     manifest works, views, config maps and hypershift deployments, with a record `Hub` of their
--     clients and helpers.
--   Helpers: pkg/helpers (names.go, finilzers.go, conditions.go, random.go, common.go, server.go,
--     infratructure.go, strategy.go, hypershift.go). Helpers/Position has the searches with which
--     the status updates of a cluster begin.
--   Webhook: webhook/authrealm_webhook.go. Webhook/Validate has `Validate`, `ValidateAuthRealm` and
--     `ValidateIDPConfig`; Webhook/Domain is the regular expression as an automaton;
--     Webhook/Hook is `Initialize`.
--   Strategy: controllers/strategy. Strategy/Selectors (common.go, backplane_strategy.go,
--     hypershift_strategy.go), Strategy/Owners and Strategy/Reconcile (strategy_controller.go),
--     Strategy/Report (authrealm_status.go).
--   AuthRealm: controllers/authrealm. AuthRealm/Orgs, Connectors and DexServer (dex.go), Deletion
--     and Reconcile (authrealm_controller.go, strategy.go, authrealm_status.go, dex.go), Templates
--     (templatefunction.go).
--   Placement: controllers/placement. Placement/Decisions and Create (common.go, dex.go), Delete
--     (dex.go), Reconcile (placement_controller.go, authrealm_status.go).
--   OAuth: controllers/clusteroauth. OAuth/Aggregate (clusteroauthmgr.go), Backplane (backplane.go),
--     Hypershift and Items (hypershift.go), Report (authrealm_status.go), Reconcile
--     (clusteroauth_controller.go).
--   Status: Status/Manifest (controllers/manifestwork) and Status/Deployment
--     (controllers/hypershiftdeployment).
--   Installer: controllers/installer/installer_controller.go. Installer/Targets, Deploy, Remove and
--     Reconcile.
--   Chain: what the deletion of a placement by the placement controller leaves to the AuthRealm
--     controller.
--   Startup: how the commands start (cmd/manager/main.go, cmd/installer/main.go,
--     cmd/webhook/main.go). Startup/Manager has the record of what is asked of controller-runtime,
--     Startup/Setup is `SetupWithManager` of each controller, Startup/Commands the commands.
--     Startup/Calls and Plan are the specification: the calls that are made, in their order.
--   Watches: what `SetupWithManager` of the controllers filters and maps. Watches/Predicates and Maps.
--   Tests: an API server in memory, and the properties at concrete inputs.
-- A definition has the name of its Go function in snake_case; the modules that are not named above
-- hold properties.
--
-- Conventions. Pointers are `Option`; a nil pointer that is dereferenced, and an index that is out
-- of range, is `panic`. A function that changes an object through a pointer has the object beside
-- the world, and a write of it takes the server's answer. A Go map is an association list. Loops
-- are recursion on the list that they range over, so that there is no fuel; the
-- rounds of a deletion (AuthRealm/Settling) are bounded by the number of objects.
-- Text is compared by its code points; the length of a sub-domain is that of its bytes, which are
-- the same for ASCII.
--
-- What is not modelled: the API server, JSON, YAML and URL parsing, the LDAP URL parser,
-- controller-runtime, the clock and the applier of clusteradm, which are parameters; logging; the
-- clients that the commands make of the configuration, and the command line; the search of a
-- hypershift deployment for a ClusterRole and the strategies that no code calls.
pub mod Base
pub mod Api
pub mod Helpers
pub mod Strategy
pub mod Webhook
pub mod AuthRealm
pub mod Placement
pub mod OAuth
pub mod Status
pub mod Installer
pub mod Chain
pub mod Startup
pub mod Watches
pub mod Tests
