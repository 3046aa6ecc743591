-- ===== src/Safety.antt =====
-- What no sequence of calls of the service can do, whatever the calls answer and wherever a
-- database failure or a panic cuts them short: each part is a preorder on the tables that every
-- statement of service.rs keeps. Kept brings them together, and Histories is about the statements in
-- any order.
pub mod Identity
pub mod Passwords
pub mod Attempts
pub mod Kept
pub mod Histories
pub mod Frame
pub mod Revocation
pub mod Schema
pub mod Sessions
pub mod OneTime
pub mod ResetOnce
pub mod RefreshOnce
