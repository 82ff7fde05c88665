-- ===== src/System.antt =====
-- The program as a whole.
pub mod Authorization
pub mod Delivery
pub mod Durable
pub mod EventSetRoutes
pub mod EventSets
pub mod Keys
pub mod Logged
pub mod OAuthRoutes
pub mod Reaching
pub mod Receiving
pub mod Safe
pub mod Sending
pub mod Serving
pub mod Stable
pub mod Steps
pub mod Tokens
pub mod Valid
