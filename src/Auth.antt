-- ===== src/Auth.antt =====
-- apps/api/src/auth: accounts, passwords, devices and sessions over the database.
pub mod Schema
pub mod Sessions
pub mod Login
pub mod Devices
pub mod Setup
pub mod Browser
pub mod History
pub mod Forever
pub mod Ending
pub mod Core
pub mod Generations
