-- ===== src/External.antt =====
-- The third-party code that the crate calls, as interfaces: tokio's oneshot and watch channels, the
-- swap_queue crate's Worker and Stealer, flurry's map, and rayon's parallel iterators. Each record holds the operations that
-- the crate calls and the documented behaviour that it relies on.
mod Tokio
mod Swap
mod Rayon
pub mod Diesel
pub mod Redis
mod Flurry
pub use Tokio.*
pub use Swap.*
pub use Flurry.*
pub use Rayon.*
