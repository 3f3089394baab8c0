-- ===== src/Provider.antt =====
-- pkg/handlers and the rest of pkg/session: the HTTP handlers of sso-provider.
pub mod Http
pub mod Messages
pub mod World
pub mod Static
pub mod Token
pub mod Authorization
pub mod Grants
pub mod Authentication
pub mod Activation
pub mod CodeFlow
mod Tests
