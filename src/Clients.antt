-- ===== src/Clients.antt =====
-- clients/tiktok-api-client.ts
pub mod RateLimiter
pub mod Retry
pub mod Send
