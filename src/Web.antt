-- ===== src/Web.antt =====
-- frontend/src: the web client, its rules and its pages.
pub mod Activity
pub mod Api
pub mod Auth
pub mod Downloads
pub mod Format
pub mod Forms
pub mod Home
pub mod Iban
pub mod IdleLogout
pub mod Payees
pub mod Profile
pub mod Queries
pub mod Shell
pub mod SignIn
pub mod Statement
pub mod Transfer
pub mod Warmup
pub mod View
mod Tests
