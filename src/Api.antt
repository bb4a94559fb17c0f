-- ===== src/Api.antt =====
-- The Kubernetes API as the controllers see it: the objects (Api/Meta, Api/Objects, Api/Identity),
-- the effects of a reconciler (Api/Action) and the interface of the API server and of the third
-- party helpers that the controllers call (Api/Client).
pub mod Action
pub mod Object
pub mod Meta
pub mod Identity
pub mod Objects
pub mod Dex
pub mod Client
pub mod Work
