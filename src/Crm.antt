-- ===== src/Crm.antt =====
-- goerp/internal/crm: leads, opportunities and activities.
pub mod Domain
pub mod Repository
pub mod Usecase
pub mod Refused
mod Examples
