-- ===== src/Inventory.antt =====
-- goerp/internal/inventory: products, stock moves, and the rest of the catalogue.
pub mod Domain
pub mod Codes
pub mod Repository
pub mod Checks
pub mod Usecase
pub mod Stock
pub mod Requests
mod Examples
