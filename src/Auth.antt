-- ===== src/Auth.antt =====
-- auth/: the token store, the OAuth client, the refresher and the routes.
pub mod TokenStore
pub mod TokenTable
pub mod OAuthClient
pub mod Refresher
pub mod Routes
