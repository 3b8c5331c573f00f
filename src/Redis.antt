-- ===== src/Redis.antt =====
-- deque-loader/src/redis: loaders over Redis, and the cache in front of another loader.
pub mod Answer
pub mod Loader
pub mod Cache
pub mod Connection
pub mod Invalidator
pub mod Client
