-- ===== src/Backend.antt =====
-- The Databricks client of backend/.
pub mod Urls
pub mod Statement
pub mod Validation
