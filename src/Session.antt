-- ===== src/Session.antt =====
-- pkg/session: the validation of the sessions of management requests.
pub mod Validator
mod Tests
