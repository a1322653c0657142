-- ===== src/Security.antt =====
-- internal/security: the formats of API keys, opaque tokens and recovery codes.
pub mod Encoding
pub mod ApiKey
pub mod Tokens
pub mod RecoveryCodes
mod Examples
