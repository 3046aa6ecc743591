-- ===== src/Service.antt =====
-- service.rs: `AuthService`. Each method is a function of the externals and of the configuration,
-- which its keys are made of, and the async methods are actions on the tables.
pub mod Password
pub mod Token
pub mod Account
pub mod Login
pub mod Refresh
pub mod Reset
pub mod Verification
pub mod Calls
