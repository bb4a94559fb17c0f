-- ===== src/Startup.antt =====
-- How the commands (cmd/manager, cmd/installer, cmd/webhook) start: what they ask of
-- controller-runtime (Startup/Manager), how each controller is set up (Startup/Setup), the commands
-- (Startup/Commands), the calls that the manager makes (Startup/Calls, Plan, Parts), and the
-- properties.
pub mod Manager
pub mod Setup
pub mod Commands
pub mod Calls
pub mod Plan
pub mod Parts
pub mod Order
pub mod Started
pub mod Prerequisites
