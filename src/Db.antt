-- ===== src/Db.antt =====
-- The PostgreSQL tables as lists of rows: internal/infra/db and migrations.
pub mod Transaction
pub mod Holds
pub mod Settings
pub mod Measurements
pub mod GuestStatuses
pub mod DeviceTables
pub mod EdgeDevices
