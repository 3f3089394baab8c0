-- ===== src/Service.antt =====
-- cmd/sso-service: the RPC servers over the datastore. Each handler is a function from the state
-- of the service to the response and the next state.
mod State
pub mod Scopes
pub mod Authorization
pub mod RefreshToken
pub mod Activation
pub mod Sessions
pub mod Account
mod Atomic
pub mod Reachable
pub mod Runs
mod Tests
pub use State.*
