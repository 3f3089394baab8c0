-- ===== src/Datastore.antt =====
-- pkg/datastore: the tables of deployments/db/migrations and the data-access code over them.
-- An SQL statement of the source is a function on the tables; the faults of Postgres and of the
-- connection are a parameter, `Outage`, that says which statements of a call fail.
mod Tables
pub mod Account
pub mod Upserts
pub mod Tenant
pub mod Client
pub mod Scope
pub mod Status
mod Tests
pub use Tables.*
