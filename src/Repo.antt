-- ===== src/Repo.antt =====
-- internal/repository: the statements that the program sends to PostgreSQL, on the tables that
-- migrations/ declare.
pub mod Apps
pub mod Payments
pub mod Signups
pub mod Stats
