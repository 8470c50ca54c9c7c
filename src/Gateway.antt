-- ===== src/Gateway.antt =====
-- The modules of src/modules/gateway.
pub mod Abuse
pub mod Tokens
pub mod Passwords
pub mod ApiKeys
