-- ===== src/Tests.antt =====
-- The properties at concrete inputs, over an API server in memory (Tests/Memory).
mod Memory
mod Webhook
mod Strategy
mod AuthRealm
mod Placement
mod Helpers
mod Sample
mod OAuth
mod Hosted
mod Status
mod Templates
mod Laws
mod Settling
mod Chain
mod Installer
mod Watches
mod Startup
