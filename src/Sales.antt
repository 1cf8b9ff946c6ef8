-- ===== src/Sales.antt =====
-- goerp/internal/sales: customers, orders and invoices.
pub mod Domain
pub mod Tables
pub mod Repository
pub mod Usecase
mod Examples
