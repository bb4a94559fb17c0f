-- ===== src/Webhook.antt =====
-- webhook/authrealm_webhook.go: the expression for sub-domains (Webhook/Domain), the admission of
-- AuthRealms and IDPConfigs (Webhook/Validate), and what an admission says
-- (Webhook/Admission, Webhook/Edits).
pub mod Domain
pub mod Validate
pub mod Hook
pub mod Labels
pub mod Admission
pub mod Edits
