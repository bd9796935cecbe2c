-- ===== src/Gateway.antt =====
-- apps/api-gateway/src
pub mod RateLimit
mod Examples
