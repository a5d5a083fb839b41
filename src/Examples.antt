-- ===== src/Examples.antt =====
-- Tests of the definitions and instances of the theorems, at concrete inputs.
pub mod Access
pub mod Auth
pub mod Crypto
pub mod RateLimit
pub mod Store
pub mod Sql
pub mod Registry
pub mod Config
pub mod Web
pub mod Engines
