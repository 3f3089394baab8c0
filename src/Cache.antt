-- ===== src/Cache.antt =====
-- pkg/cache: the keys of the program in Redis, and the purges of them.
pub mod Redis
pub mod Ids
pub mod Purge
pub mod Local
pub mod Client
mod Tests
