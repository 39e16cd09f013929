-- ===== src/Tests.antt =====
-- Example runs: each applies a theorem at concrete devices, measurements and tables.
mod Data
mod Devices
mod Services
mod Snapshots
mod Queries
mod Tables
mod Store
mod Wire
mod Logs
mod Cycles
