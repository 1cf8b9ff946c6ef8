-- ===== src/Claims.antt =====
-- services/claim-service: the claims of all tenants, from the table to the HTTP handlers.
pub mod Domain
pub mod Where
pub mod Repository
pub mod Service
pub mod Csv
pub mod Kafka
pub mod Http
mod Examples
