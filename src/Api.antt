-- ===== src/Api.antt =====
-- API/: the request protocol between Training and the RL runtime.
pub mod Value
pub mod Decimal
pub mod Dto
pub mod Rejected
pub mod Require
pub mod Validation
pub mod Identifiers
pub mod EventRng
pub mod Masking
pub mod Faults
pub mod Server
pub mod Tcp
mod Examples
